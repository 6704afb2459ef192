-- ===== src/Smtp.antt =====
-- `crates/carriers/src/smtp.rs`: the ingress listener. The connection is what `read_until` gives:
-- the lines that the client sends, each with the line feed that ends it, until it disconnects.
-- What is written is collected. A socket that fails while it is read or written is not modelled.
pub mod Data
pub mod Replies
pub mod Sessions
pub mod Transactions
pub mod Recipients
pub mod Daemon
pub mod Bounces
mod Tests
use carriers.Base.{
  ℕ, zero, suc, Text, Bytes, Bool, true, false, not, ◌&&◌, ◌||◌, Option, none, some, List, [], ◌∷◌,
  ◌++◌, map, codes, Action, Error, Result, ok, err, pure, throw, ◌>>=◌, if◌then◌else◌, ◌==◌, nat_eq,
  text_eq, text_beq, take, any, is_empty, trim, starts_with, length,
}
use carriers.Base.Maybe.{unwrap_or}
use carriers.MailingList.{MailingList, Config, BounceConfig, Protocol, lmtp, smtp}
use carriers.State.{AppState, list_for_address}
use carriers.Verp.{decode_verp}
use carriers.Bounce.{BounceKind, hard, soft, unknown, classify}
use carriers.Pipeline.{Ingress, Prepared, Disposition}
use carriers.Pipeline
use mathlib.Core.Option

-- `read_data`: the message, and the lines that are left.
abbrev pub is_end : Bytes → Bool
is_end line = (line == codes ".\r\n") || (line == codes ".\n")

unfoldable pub unstuffed : Bytes → Bytes
unstuffed [] = []
unstuffed (c ∷ line) = if c == b'.' then line else c ∷ line

abbrev pub after_line : Bytes → Bytes × List Bytes → Bytes × List Bytes
after_line line (message, rest) = (line ++ message, rest)

unfoldable pub read_data : List Bytes → Bytes × List Bytes
unfolding text_beq unstuffed
read_data [] = ([], [])
read_data (line ∷ lines) =
    let rest = read_data lines in
    if is_end line then ([], lines) else after_line (unstuffed line) rest

-- Free text in a reply.
abbrev pub blank_break : ℕ → ℕ
blank_break c = if (c == b'\r') || (c == b'\n') then b' ' else c

unfoldable pub sanitize_smtp_reply_text : Text → Text
unfolding trim
sanitize_smtp_reply_text text =
    let cleaned = take 200 (map blank_break text) in
    if is_empty (trim cleaned) then codes "Message rejected" else cleaned

-- `Outcome`, what became of a post.
pub data Outcome : Type 0 where
  distributed : ℕ → Outcome
  held : ℕ → Outcome
  discarded : Text → Outcome
  rejected : Text → Outcome

-- The reply to a post and the reply to a bounce, by what their processing returned.
unfoldable pub post_reply_text : Result Outcome → Text
unfolding sanitize_smtp_reply_text
post_reply_text (ok (distributed count)) = codes "250 2.6.0 Message accepted\r\n"
post_reply_text (ok (held id)) = codes "250 2.6.0 Message accepted (held for moderation)\r\n"
post_reply_text (ok (discarded reason)) = codes "250 2.6.0 Message accepted (not distributed)\r\n"
post_reply_text (ok (rejected reason)) =
    codes "550 5.7.1 " ++ (sanitize_smtp_reply_text reason ++ codes "\r\n")
post_reply_text (err e) = codes "451 4.3.0 Temporary processing failure\r\n"

unfoldable pub bounce_reply_text : Result (Unit {0}) → Text
bounce_reply_text (ok _) = codes "250 2.1.5 Bounce recorded\r\n"
bounce_reply_text (err e) = codes "451 4.3.0 Could not record bounce\r\n"

pub data Recipient (Key : Type 0) : Type 0 where
  post : MailingList Key → Recipient Key
  bounce : MailingList Key → Text → Recipient Key

-- What a parsed command is, of the commands that the session answers.
pub data Request : Type 0 where
  ehlo lhlo helo mail rcpt : Text → Request
  data_ rset noop quit other : Request

pub record Session (Key : Type 0) : Type 0 where
  pub helo : Text
  pub mail_from : Option Text
  pub recipients : List (Recipient Key)

abbrev pub first_session : {Key : Type 0} → Session Key
first_session = record { helo = []; mail_from = none; recipients = [] }

-- `mail_from = None; recipients.clear()`
abbrev pub reset : {Key : Type 0} → Session Key → Session Key
reset session = record session { mail_from = none; recipients = [] }

module _ {F Key : Type 0} (state : AppState F Key) where
  posting : Text → Option (Recipient Key)
  unfolding list_for_address
  posting address = Option.map post (list_for_address state address)

  bounce_or : Text → Text → Text → Option (MailingList Key) → Option (Recipient Key)
  unfolding posting
  bounce_or address base recipient (some list) = some (bounce list recipient)
  bounce_or address base recipient none = posting address

  -- A bounce address of a known list, else a posting address.
  unfoldable pub classify_recipient : Text → Option (Recipient Key)
  unfolding decode_verp bounce_or posting list_for_address
  classify_recipient address = elim (decode_verp address) [
    | none ↦ posting address
    | some (base, recipient) ↦ bounce_or address base recipient (list_for_address state base)
  ]

-- The parts that the listener calls: the parser of commands, `pipeline::intake`,
-- `pipeline::finalize`, the delivery, and `Store::record_bounce` on the database of the daemon.
pub record Services (F Key W : Type 0) : Type 0 where
  pub parse : Bytes → Option Request
  pub intake : MailingList Key → Ingress → Bytes → Action W Disposition
  pub finalize : MailingList Key → Ingress → Bytes → Action W Disposition
  pub deliver : MailingList Key → Prepared → Action W ℕ
  pub record_bounce : Text → Text → F → F → Action W (Option Bool)

module _ {F Key W : Type 0} (services : Services F Key W) (state : AppState F Key) where
  -- The `match` on the disposition, which `handle_one` and `distribute_approved` share.
  unfoldable pub dispose : MailingList Key → Disposition → Action W Outcome
  dispose list (Pipeline.distribute prepared) = do
    count ← services.deliver list prepared
    pure (distributed count)
  dispose list (Pipeline.held id) = pure (held id)
  dispose list (Pipeline.discarded reason) = pure (discarded reason)
  dispose list (Pipeline.rejected reason) = pure (rejected reason)

  -- After `intake`: a message that cannot be parsed is accepted and dropped.
  unfoldable pub after_intake : MailingList Key → Result Disposition × W → Result Outcome × W
  unfolding dispose
  after_intake list (ok disposition, w) = dispose list disposition w
  after_intake list (err (Error.unparseable reason), w) = (ok (discarded reason), w)
  after_intake list (err e, w) = (err e, w)

  unfoldable pub handle_one : MailingList Key → Ingress → Bytes → Action W Outcome
  unfolding after_intake
  handle_one list ingress raw w = after_intake list (services.intake list ingress raw w)

  unfoldable pub distribute_approved : MailingList Key → Ingress → Bytes → Action W Outcome
  unfolding dispose
  distribute_approved list ingress raw = services.finalize list ingress raw >>= dispose list

  -- The weight of a bounce; a message that is no delivery report is ignored.
  unfoldable pub weigh : MailingList Key → Text → BounceKind → Action W (Unit {0})
  weigh list address hard = do
    _ ←
        services.record_bounce list.name address state.config.bounce.hard_weight
          state.config.bounce.threshold
    pure tt
  weigh list address soft = do
    _ ←
        services.record_bounce list.name address state.config.bounce.soft_weight
          state.config.bounce.threshold
    pure tt
  weigh list address unknown = pure tt

  unfoldable pub handle_bounce : MailingList Key → Text → Bytes → Action W (Unit {0})
  unfolding classify weigh
  handle_bounce list address raw = weigh list address (classify raw)

  abbrev pub reply_of : {A : Type 0} → (Result A → Text) → Result A × W → Text × W
  reply_of text (r, w) = (text r, w)

  unfoldable pub reply_to : Recipient Key → Ingress → Bytes → W → Text × W
  unfolding handle_one handle_bounce post_reply_text bounce_reply_text
  reply_to (post list) ingress raw w = reply_of post_reply_text (handle_one list ingress raw w)
  reply_to (bounce list address) ingress raw w =
      reply_of bounce_reply_text (handle_bounce list address raw w)

  -- `process`: each recipient in turn, one reply each.
  unfoldable pub process : List (Recipient Key) → Ingress → Bytes → W → List Text × W
  unfolding reply_to
  process [] ingress raw w = ([], w)
  process (recipient ∷ recipients) ingress raw w =
      let (reply, w') = reply_to recipient ingress raw w in
      let (replies, w'') = process recipients ingress raw w' in (reply ∷ replies, w'')

  -- What `DATA` answers: every reply in LMTP, one for all of them in SMTP.
  unfoldable pub data_replies : Protocol → List Text → List Text
  unfolding starts_with
  data_replies lmtp replies = replies
  data_replies smtp replies =
      if any (λ r. starts_with (codes "2") r) replies
      then codes "250 2.6.0 Message accepted\r\n" ∷ []
      else codes "451 4.3.0 Message could not be processed\r\n" ∷ []

  -- One turn of the loop: what is written, and the session with the lines left, or none once the
  -- client has quit.
  abbrev pub Turn : Type 0
  Turn = List Text × (Option (Session Key × List Bytes) × W)

  abbrev pub stay : Session Key → List Bytes → W → List Text → Turn
  stay session lines w out = (out, (some (session, lines), w))

  abbrev pub hostname : Text
  hostname = state.config.hostname

  -- `RCPT`: refused before `MAIL`, and for an address that is no list's.
  unfoldable pub rcpt_turn :
      Option Text → Option (Recipient Key) → Session Key → List Bytes → W → Turn
  rcpt_turn none found session lines w =
      stay session lines w (codes "503 5.5.1 MAIL first\r\n" ∷ [])
  rcpt_turn (some _) (some recipient) session lines w =
      stay (record session { recipients = session.recipients ++ recipient ∷ [] }) lines w
        (codes "250 2.1.5 OK\r\n" ∷ [])
  rcpt_turn (some _) none session lines w =
      stay session lines w (codes "550 5.1.1 No such mailing list\r\n" ∷ [])

  -- `DATA`: refused without recipients.
  unfoldable pub data_turn : Text → Session Key → List Bytes → W → Turn
  unfolding read_data process data_replies
  data_turn remote_ip session lines w =
      if is_empty session.recipients
      then stay session lines w (codes "503 5.5.1 No valid recipients\r\n" ∷ [])
      else let (raw, rest) = read_data lines in
        let ingress : Ingress = record {
          remote_ip = remote_ip;
          helo = session.helo;
          mail_from = unwrap_or session.mail_from [];
        } in
        let (replies, w') = process session.recipients ingress raw w in
        stay (reset session) rest w' (
          codes "354 Start mail input; end with <CRLF>.<CRLF>\r\n"
          ∷ data_replies state.config.protocol replies)

  unfoldable pub turn : Text → Option Request → Session Key → List Bytes → W → Turn
  unfolding rcpt_turn data_turn classify_recipient
  turn remote_ip none session lines w =
      stay session lines w (codes "500 5.5.2 Syntax error\r\n" ∷ [])
  turn remote_ip (some (ehlo h)) session lines w =
      stay (record (reset session) { helo = h }) lines w
        ((codes "250-" ++ hostname ++ codes " greets you\r\n250 PIPELINING\r\n") ∷ [])
  turn remote_ip (some (lhlo h)) session lines w =
      stay (record (reset session) { helo = h }) lines w
        ((codes "250-" ++ hostname ++ codes " greets you\r\n250 PIPELINING\r\n") ∷ [])
  turn remote_ip (some (helo h)) session lines w =
      stay (record (reset session) { helo = h }) lines w
        ((codes "250 " ++ hostname ++ codes "\r\n") ∷ [])
  turn remote_ip (some (mail from)) session lines w =
      stay (record session { mail_from = some from; recipients = [] }) lines w
        (codes "250 2.1.0 OK\r\n" ∷ [])
  turn remote_ip (some (rcpt to)) session lines w =
      rcpt_turn session.mail_from (classify_recipient state to) session lines w
  turn remote_ip (some data_) session lines w = data_turn remote_ip session lines w
  turn remote_ip (some rset) session lines w =
      stay (reset session) lines w (codes "250 2.0.0 OK\r\n" ∷ [])
  turn remote_ip (some noop) session lines w = stay session lines w (codes "250 2.0.0 OK\r\n" ∷ [])
  turn remote_ip (some quit) session lines w = (codes "221 2.0.0 Bye\r\n" ∷ [], (none, w))
  turn remote_ip (some other) session lines w =
      stay session lines w (codes "502 5.5.1 Command not implemented\r\n" ∷ [])

  abbrev pub after_turn : (Session Key → List Bytes → W → List Text × W) → Turn → List Text × W
  after_turn next (out, (none, w)) = (out, w)
  after_turn next (out, (some (session, rest), w)) =
      let (more, w') = next session rest w in (out ++ more, w')

  -- The loop, on fuel: each turn reads at least one line.
  unfoldable pub session_loop : ℕ → Text → Session Key → List Bytes → W → List Text × W
  unfolding turn
  session_loop fuel remote_ip session [] w = ([], w)
  session_loop zero remote_ip session (line ∷ lines) w = ([], w)
  session_loop (suc fuel) remote_ip session (line ∷ lines) w =
      after_turn (session_loop fuel remote_ip)
        (turn remote_ip (services.parse line) session lines w)

  unfoldable pub handle_connection : Text → List Bytes → W → List Text × W
  unfolding session_loop
  handle_connection remote_ip lines w =
      let (out, w') = session_loop (length lines) remote_ip first_session lines w in
      ((codes "220 " ++ hostname ++ codes " carriers ready\r\n") ∷ out, w')
