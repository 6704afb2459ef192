-- ===== src/Smtp/Transactions.antt =====
-- A whole transaction of `crates/carriers/src/smtp.rs`: `MAIL`, any number of `RCPT`, `DATA` and a
-- message.
use carriers.Base.{ℕ, suc, Text, Bytes, Option, none, some, List, [], ◌∷◌, ◌++◌, map, codes, ◌≡◌}
use carriers.Base.Maybe.{unwrap_or}
use carriers.Smtp.{
  Session, Recipient, Services, reset, rcpt, classify_recipient, process, data_replies,
}
use carriers.State.{AppState}
use carriers.Pipeline.{Ingress}

-- The recipients among the addresses, in order, and the answers.
abbrev pub and_more :
    {Key : Type 0} → Option (Recipient Key) → List (Recipient Key) → List (Recipient Key)
and_more none rs = rs
and_more (some r) rs = r ∷ rs

abbrev pub rcpt_reply : {Key : Type 0} → Option (Recipient Key) → Text
rcpt_reply none = codes "550 5.1.1 No such mailing list\r\n"
rcpt_reply (some _) = codes "250 2.1.5 OK\r\n"

abbrev pub written : {W : Type 0} → List Text → List Text × W → List Text × W
written out (more, w) = (out ++ more, w)

module _ {F Key W : Type 0} (services : Services F Key W) (state : AppState F Key) where
  abbrev pub accepted : List Text → List (Recipient Key)
  accepted [] = []
  accepted (to ∷ tos) = and_more (classify_recipient state to) (accepted tos)

  abbrev pub rcpt_replies : List Text → List Text
  rcpt_replies tos = map (λ to. rcpt_reply (classify_recipient state to)) tos

  -- The lines parse to `RCPT` commands for the addresses.
  abbrev pub AreRcpt : List Bytes → List Text → Type 0
  AreRcpt [] [] = Unit
  AreRcpt (line ∷ lines) (to ∷ tos) = (services.parse line ≡ some (rcpt to)) × AreRcpt lines tos
  AreRcpt _ _ = ⊥

  abbrev with_recipients : Session Key → List (Recipient Key) → Session Key
  with_recipients session rs = record session { recipients = session.recipients ++ rs }

  -- One turn for each of these lines, and more.
  abbrev pub plus : List Bytes → ℕ → ℕ
  plus [] k = k
  plus (_ ∷ lines) k = suc (plus lines k)

  -- What `DATA` writes and does with a message, before the session goes on with the tail.
  abbrev pub answered :
      Text
      → Session Key
      → Bytes
      → List Bytes
      → W
      → (Session Key → List Bytes → W → List Text × W)
      → List Text × W
  answered remote_ip session raw tail w next =
      let ingress : Ingress = record {
        remote_ip = remote_ip;
        helo = session.helo;
        mail_from = unwrap_or session.mail_from [];
      } in
      let (replies, w') = process services state session.recipients ingress raw w in
      written
        (codes "354 Start mail input; end with <CRLF>.<CRLF>\r\n"
          ∷ data_replies services state state.config.protocol replies)
        (next (reset session) tail w')
