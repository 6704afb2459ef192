-- ===== src/Smtp/Recipients.antt =====
-- Which recipients the listener of `crates/carriers/src/smtp.rs` knows.
use carriers.Base.{Text, false, some, none, ◌∷◌, ◌++◌, contains_char, split_once_str, ◌≡◌, refl}
use carriers.MailingList.{MailingList}
use carriers.State.{AppState, list_for_address}
use carriers.Smtp.{bounce, classify_recipient}
use carriers.Verp.{verp, bounce_mark}
use carriers.Verp.RoundTrip.{decode_verp-verp}

module _ {F Key : Type 0} (state : AppState F Key) where
  -- The return path that the delivery gives a recipient's copy is taken, when the copy bounces, for a
  -- bounce of this recipient from the list that has the posting address. Conditions: the list's local
  -- part does not hold the mark `+bounce=`, its domain holds no `@`, and the recipient is a local
  -- part without `@`, an `@` and a domain without `=`.
  pub classify_recipient-verp :
      (list_local list_domain user host : Text) (list : MailingList Key)
      → split_once_str bounce_mark list_local ≡ none
      → contains_char b'@' list_domain ≡ false
      → contains_char b'@' user ≡ false
      → contains_char b'=' host ≡ false
      → list_for_address state (list_local ++ (b'@' ∷ list_domain)) ≡ some list
      → classify_recipient state (verp list_local list_domain (user ++ (b'@' ∷ host)))
        ≡ some (bounce list (user ++ (b'@' ∷ host)))
  unfolding classify_recipient
  classify_recipient-verp l d user host list hl hd hu hh known =
      rw (classify_recipient, decode_verp-verp l d user host hl hd hu hh, known) refl
