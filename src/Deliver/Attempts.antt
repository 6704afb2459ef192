-- ===== src/Deliver/Attempts.antt =====
-- Who the delivery of `crates/carriers/src/deliver.rs` sends to, and what it counts.
use carriers.Base.{
  ℕ, suc, ◌+◌, Text, Bool, true, false, none, List, [], ◌∷◌, is_empty, Action, Result, ok, err,
  length, ◌≤◌, arith, ◌≡◌, refl, ◌∙◌, ap, ◌>>=◌, proceed, if◌then◌else◌, not, ◌&&◌,
}
use carriers.MailingList.{MailingList, Smarthost}
use carriers.Pipeline.{Prepared}
use carriers.Sign.{MailAuth}
use carriers.Verp.{verp}
use carriers.Deliver.{
  SmtpClient, tally, next_count, send_each, send_all, deliver, return_path_of, body_for, quit_with,
}

open_first :
    {W : Type 0} {A : Type 0} (b : Bool) (m n : Action W (Unit {0})) (k : Action W A) (w : W)
    → (if b then (m >>= (λ _. k)) else (n >>= (λ _. k))) w
      ≡ proceed (λ _. k) ((if b then m else n) w)
open_first true m n k w = refl
open_first false m n k w = refl

module _ {Key W : Type 0} (mail_auth : MailAuth Key) (client : SmtpClient W)
    (list : MailingList Key) where
  -- What a message adds to the count of the accepted ones.
  abbrev pub weight : Result (Unit {0}) → ℕ
  weight (ok _) = 1
  weight (err e) = 0

  abbrev pub counted : Result (Unit {0}) × W → (W → ℕ × W) → ℕ × W
  counted (sent, w) rest = let (n, w') = rest w in (weight sent + n, w')

  -- One message for each recipient, from the return path that encodes the list and the recipient; how
  -- many the smarthost accepted.
  abbrev pub attempts : Prepared → List Text → W → ℕ × W
  attempts prepared [] w = (0, w)
  attempts prepared (recipient ∷ recipients) w =
      counted
        (client.send (verp prepared.return_path_local prepared.list_domain recipient) recipient
          prepared.message w)
        (attempts prepared recipients)

  count_bound :
      (r : Result (Unit {0}) × W) (rest : W → ℕ × W) (n : ℕ)
      → ((w : W) → (rest w).0 ≤ n)
      → (counted r rest).0 ≤ suc n
  count_bound (ok _, w) rest n h = omega (arith, h w)
  count_bound (err e, w) rest n h = omega (arith, h w)

  attempts-bound :
      (prepared : Prepared) (recipients : List Text) (w : W)
      → (attempts prepared recipients w).0 ≤ length recipients
  attempts-bound prepared [] w = omega arith
  attempts-bound prepared (recipient ∷ recipients) w =
      count_bound
        (client.send (verp prepared.return_path_local prepared.list_domain recipient) recipient
          prepared.message w)
        (attempts prepared recipients) (length recipients) (attempts-bound prepared recipients)

  abbrev raised : ℕ → ℕ × W → Result ℕ × W
  raised n (m, w) = (ok (n + m), w)

  tally_step :
      (r : Result (Unit {0}) × W) (n : ℕ) (next : ℕ → Action W ℕ) (rest : W → ℕ × W)
      → ((m : ℕ) (w : W) → next m w ≡ raised m (rest w))
      → next_count mail_auth client list next (tally n r) ≡ raised n (counted r rest)
  tally_step (ok _, w) n next rest h = h (n + 1) w ∙ ap (λ k. (ok k, (rest w).1)) (omega arith)
  tally_step (err e, w) n next rest h = h n w ∙ ap (λ k. (ok k, (rest w).1)) (omega arith)

  send_each-attempts :
      (prepared : Prepared) (recipients : List Text) (n : ℕ) (w : W)
      → prepared.dkim2_original ≡ none
      → send_each mail_auth client list prepared recipients n w
        ≡ raised n (attempts prepared recipients w)
  unfolding send_each
  send_each-attempts prepared [] n w h = ap (λ k. (ok k, w)) (omega arith)
  send_each-attempts prepared (recipient ∷ recipients) n w h =
      let return_path = return_path_of mail_auth client list prepared recipient in
      rw h (
        unfold body_for in
        tally_step (client.send return_path recipient prepared.message w) n
          (send_each mail_auth client list prepared recipients) (attempts prepared recipients)
          (λ m v. send_each-attempts prepared recipients m v h))

  abbrev pub finished : ℕ × W → Result ℕ × W
  finished (n, w) = (ok n, client.quit w)

  -- In plain text only if that is allowed and TLS is not asked for.
  abbrev pub opened : Smarthost → Action W (Unit {0})
  opened smarthost =
      if smarthost.allow_plaintext && not smarthost.implicit_tls
      then client.connect_plain smarthost
      else client.connect smarthost

  send_all-attempts :
      (prepared : Prepared) (w : W)
      → prepared.dkim2_original ≡ none
      → send_all mail_auth client list prepared w
        ≡ finished (attempts prepared prepared.recipients w)
  unfolding send_all
  send_all-attempts prepared w h =
      ap (proceed (quit_with mail_auth client list))
        (send_each-attempts prepared prepared.recipients 0 w h)
      ∙ ap (λ k. (ok k, client.quit (attempts prepared prepared.recipients w).1)) (omega arith)

  -- Once the connection is open, a message that needs no DKIM2 link is sent to each recipient in
  -- turn, one message each from a return path that encodes the list and the recipient, whatever
  -- becomes of the others; the connection is then closed. The delivery succeeds with the number of
  -- messages that were accepted, which is at most the number of recipients.
  pub deliver-attempts :
      (smarthost : Smarthost) (prepared : Prepared) (w w' : W)
      → prepared.dkim2_original ≡ none
      → is_empty prepared.recipients ≡ false
      → opened smarthost w ≡ (ok tt, w')
      → (deliver mail_auth client list smarthost prepared w
          ≡ finished (attempts prepared prepared.recipients w'))
        × ((attempts prepared prepared.recipients w').0 ≤ length prepared.recipients)
  unfolding deliver
  deliver-attempts smarthost prepared w w' h e o = (
    rw e (
        open_first (smarthost.allow_plaintext && not smarthost.implicit_tls)
          (client.connect_plain smarthost) (client.connect smarthost)
          (send_all mail_auth client list prepared) w
        ∙ ap (proceed (λ _. send_all mail_auth client list prepared)) o
        ∙ send_all-attempts prepared w' h),
    attempts-bound prepared prepared.recipients w',
  )
