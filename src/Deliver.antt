-- ===== src/Deliver.antt =====
-- `crates/carriers/src/deliver.rs`: the delivery of a prepared message to the smarthost. The SMTP
-- client is a record of actions; the message for a recipient is what `sign_dkim2_for_delivery`
-- makes of it.
pub mod Attempts
pub mod Kept
use carriers.Base.{
  ℕ, zero, suc, ◌+◌, Text, Bytes, Bool, true, false, not, ◌&&◌, Option, none, some, List, [], ◌∷◌,
  ◌++◌, is_empty, Action, Error, Result, ok, err, pure, throw, lift, ◌>>=◌, if◌then◌else◌, length,
  ◌≤◌, arith, ◌≡◌, refl, Bool-cases, inl, inr, ap, ◌∙◌, codes, map,
}
use carriers.MailingList.{MailingList, Smarthost}
use carriers.Pipeline.{Prepared}
use carriers.Sign.{MailAuth, sign_dkim2_for_delivery}
use carriers.Verp.{verp}

-- The connection to the smarthost: opened with or without TLS, one message at a time, closed.
pub record SmtpClient (W : Type 0) : Type 0 where
  pub connect : Smarthost → Action W (Unit {0})
  pub connect_plain : Smarthost → Action W (Unit {0})
  pub send : Text → Text → Bytes → Action W (Unit {0})
  pub quit : W → W

-- `accepted += 1` if the message was sent; a failure is logged and passed over.
abbrev pub tally : {W : Type 0} → ℕ → Result (Unit {0}) × W → ℕ × W
tally accepted (ok _, w) = (accepted + 1, w)
tally accepted (err e, w) = (accepted, w)

module _ {Key W : Type 0} (mail_auth : MailAuth Key) (client : SmtpClient W)
    (list : MailingList Key) where
  -- The bytes for one recipient.
  unfoldable pub body_for : Prepared → Option Bytes → Text → Text → Result Bytes
  unfolding sign_dkim2_for_delivery
  body_for prepared (some original) return_path recipient =
      sign_dkim2_for_delivery mail_auth list original prepared.message return_path recipient
  body_for prepared none return_path recipient = ok prepared.message

  abbrev pub return_path_of : Prepared → Text → Text
  return_path_of prepared recipient = verp prepared.return_path_local prepared.list_domain recipient

  abbrev pub next_count : (ℕ → Action W ℕ) → ℕ × W → Result ℕ × W
  next_count next (accepted, w) = next accepted w

  -- The loop of `send_all`, with the count so far.
  unfoldable pub send_each : Prepared → List Text → ℕ → Action W ℕ
  unfolding body_for
  send_each prepared [] accepted = pure accepted
  send_each prepared (recipient ∷ recipients) accepted = do
    let return_path = return_path_of prepared recipient
    body ← lift (body_for prepared prepared.dkim2_original return_path recipient)
    λ w.
        next_count (send_each prepared recipients)
          (tally accepted (client.send return_path recipient body w))

  abbrev pub quit_with : ℕ → Action W ℕ
  quit_with accepted w = (ok accepted, client.quit w)

  unfoldable pub send_all : Prepared → Action W ℕ
  unfolding send_each
  send_all prepared = send_each prepared prepared.recipients 0 >>= quit_with

  unfoldable pub deliver : Smarthost → Prepared → Action W ℕ
  unfolding send_all
  deliver smarthost prepared =
      if is_empty prepared.recipients
      then pure 0
      else if smarthost.allow_plaintext && not smarthost.implicit_tls
      then (client.connect_plain smarthost >>= (λ _. send_all prepared))
      else (client.connect smarthost >>= (λ _. send_all prepared))
