-- ===== src/Deliver/Kept.antt =====
-- What the delivery of `crates/carriers/src/deliver.rs` leaves as it is.
use carriers.Base.{
  ℕ, Text, Bytes, Bool, true, false, not, ◌&&◌, List, [], ◌∷◌, is_empty, Action, Result, ok, err,
  pure, lift, ◌>>=◌, proceed, ◌+◌, if◌then◌else◌, ◌≡◌, refl, ◌∙◌,
}
use carriers.Deliver.{
  SmtpClient, tally, body_for, return_path_of, next_count, send_each, send_all, quit_with, deliver,
}
use carriers.MailingList.{MailingList, Smarthost}
use carriers.Pipeline.{Prepared}
use carriers.Sign.{MailAuth}

-- `part` is a part of the state.
module _ {W X : Type 0} (part : W → X) where
  abbrev pub Keeps : {A : Type 0} → Action W A → Type 0
  Keeps m = (w : W) → part (m w).1 ≡ part w

  pub >>=-Keeps :
      {A B : Type 0} (m : Action W A) (f : A → Action W B)
      → Keeps m
      → ((a : A) → Keeps (f a))
      → Keeps (m >>= f)
  >>=-Keeps {A = A} m f hm hf w = go (m w) (hm w)
    where
      go : (r : Result A × W) → part r.1 ≡ part w → part (proceed f r).1 ≡ part w
      go (ok a, w') e = hf a w' ∙ e
      go (err x, w') e = e

  if-Keeps :
      {A : Type 0} (t : Bool) (a b : Action W A) → Keeps a → Keeps b → Keeps (if t then a else b)
  if-Keeps true a b h k = h
  if-Keeps false a b h k = k

  -- A client that keeps it: mail is sent to another host.
  pub record ClientKeeps (client : SmtpClient W) : Type 0 where
    pub connect_keeps : (host : Smarthost) → Keeps (client.connect host)
    pub plain_keeps : (host : Smarthost) → Keeps (client.connect_plain host)
    pub send_keeps : (from to : Text) (body : Bytes) → Keeps (client.send from to body)
    pub quit_keeps : (w : W) → part (client.quit w) ≡ part w

  module _ {Key : Type 0} (mail_auth : MailAuth Key) (client : SmtpClient W)
      (list : MailingList Key) (kept : ClientKeeps client) where
    tallied-Keeps :
        (next : ℕ → Action W ℕ) (accepted : ℕ) (r : Result (Unit {0}) × W) (w : W)
        → ((n : ℕ) → Keeps (next n))
        → part r.1 ≡ part w
        → part (next_count mail_auth client list next (tally accepted r)).1 ≡ part w
    tallied-Keeps next accepted (ok _, w') w hn e = hn (accepted + 1) w' ∙ e
    tallied-Keeps next accepted (err x, w') w hn e = hn accepted w' ∙ e

    send_each-Keeps :
        (prepared : Prepared) (recipients : List Text) (accepted : ℕ)
        → Keeps (send_each mail_auth client list prepared recipients accepted)
    unfolding send_each
    send_each-Keeps prepared [] accepted = λ w. refl
    send_each-Keeps prepared (recipient ∷ recipients) accepted =
        let path = return_path_of mail_auth client list prepared recipient in
        >>=-Keeps
          (lift (body_for mail_auth client list prepared prepared.dkim2_original path recipient)) _
          (λ w. refl)
          λ body w.
            tallied-Keeps (send_each mail_auth client list prepared recipients) accepted
              (client.send path recipient body w) w (send_each-Keeps prepared recipients)
              (kept.send_keeps path recipient body w)

    send_all-Keeps : (prepared : Prepared) → Keeps (send_all mail_auth client list prepared)
    unfolding send_all
    send_all-Keeps prepared =
        >>=-Keeps (send_each mail_auth client list prepared prepared.recipients 0)
          (quit_with mail_auth client list) (send_each-Keeps prepared prepared.recipients 0)
          (λ n w. kept.quit_keeps w)

    pub deliver-Keeps :
        (host : Smarthost) (prepared : Prepared)
        → Keeps (deliver mail_auth client list host prepared)
    unfolding deliver
    deliver-Keeps host prepared =
        if-Keeps (is_empty prepared.recipients) (pure 0) _ (λ w. refl)
          (if-Keeps (host.allow_plaintext && not host.implicit_tls) _ _
            (>>=-Keeps (client.connect_plain host) (λ _. send_all mail_auth client list prepared)
              (kept.plain_keeps host) (λ _. send_all-Keeps prepared))
            (>>=-Keeps (client.connect host) (λ _. send_all mail_auth client list prepared)
              (kept.connect_keeps host) (λ _. send_all-Keeps prepared)))
