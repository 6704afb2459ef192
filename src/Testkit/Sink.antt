-- ===== src/Testkit/Sink.antt =====
-- `crates/carriers-testkit/src/sink.rs`: the SMTP sink that stands for the subscribers' servers. It
-- keeps every message that it is given and scores it. The checks of `mail_auth` and the disk are
-- parameters; connections are taken one after another.
pub mod Sessions
use carriers.Base.{
  ℕ, zero, suc, ◌+◌, ◌%◌, ◌^◌, Text, Bytes, Bool, true, false, not, ◌&&◌, ◌||◌, Option, none, some,
  List, [], ◌∷◌, ◌++◌, map, codes, any, length, is_empty, show, digits, reverse, rsplit_once,
  trim_end_of, is_whitespace, to_ascii_lowercase, lower, eq_ignore_ascii_case, starts_with, ltb,
  Fallible, yields, fails, Failure, bail, proceed_with, if◌then◌else◌, ◌==◌, nat_eq, text_eq,
  text_beq,
}
use carriers.Base.Maybe.{unwrap_or}
use carriers.Files.{join}
use carriers.Sign.{DkimResult, DmarcResult, is_pass}
use carriers.Smtp.{Request, ehlo, lhlo, helo, mail, rcpt, data_, rset, noop, quit, other}
use carriers.Testkit.Verdicts.{
  Verdict, summary, domain_of, Authenticator, dmarc_passes, passing_domains, unparseable_verdict,
}

-- What the sink keeps between messages; `Disk` is what is written to.
pub record Captures (Disk : Type 0) : Type 0 where
  pub verdicts : List Verdict
  pub counter : ℕ
  pub disk : Disk
  pub printed : List Text

pub record Session : Type 0 where
  pub helo : Text
  pub mail_from : Option Text
  pub recipients : List Text

abbrev pub first_session : Session
first_session = record { helo = []; mail_from = none; recipients = [] }

abbrev pub reset : Session → Session
reset session = record session { mail_from = none; recipients = [] }

-- `start` for a sink on a new disk.
abbrev pub start : {Disk : Type 0} → Disk → Captures Disk
start disk = record { verdicts = []; counter = 0; disk = disk; printed = [] }

-- A line without the dot that was stuffed, `&line[start..]`.
abbrev pub from_start : Bytes → Bytes
from_start [] = []
from_start (c ∷ line) = if c == b'.' then line else c ∷ line

abbrev pub append_line : Bytes → Bytes × List Bytes → Bytes × List Bytes
append_line line (message, rest) = (line ++ message, rest)

unfoldable pub read_data : List Bytes → Bytes × List Bytes
unfolding text_beq
read_data [] = ([], [])
read_data (line ∷ lines) =
    let rest = read_data lines in
    if (line == codes ".\r\n") || (line == codes ".\n")
    then ([], lines)
    else append_line (from_start line) rest

-- `{n:03}`
abbrev pub padded : ℕ → Text
padded n =
    if ltb n 10 then codes "00" ++ show n else if ltb n 100 then codes "0" ++ show n else show n

-- What `SinkState` holds that does not change, the parser of commands, and the write of a file,
-- whose failure is only logged.
pub record SinkState (Disk : Type 0) : Type 1 where
  pub authenticator : Authenticator
  pub parse : Bytes → Option Request
  pub hostname : Text
  pub capture_dir : Text
  pub print : Bool
  pub write : Text → Bytes → Disk → Disk

module _ {Disk : Type 0} (state : SinkState Disk) where
  open state.authenticator use {
    verify_dkim, verify_arc, verify_dkim2, verify_spf, spf_result, verify_dmarc,
  }

  -- The verdict on a message that could be parsed.
  unfoldable pub verdict_on : Text → Text → Text → List Text → state.authenticator.Parsed → Verdict
  unfolding domain_of
  verdict_on remote_ip client mail_from recipients message =
      let dkim = verify_dkim message in
      let spf_output = verify_spf remote_ip client state.hostname mail_from in
      let dmarc = verify_dmarc message dkim (domain_of mail_from) spf_output in
      record {
        mail_from = mail_from;
        rcpt = recipients;
        from_domain = domain_of (state.authenticator.from message);
        dkim_pass_domains = passing_domains dkim;
        arc_pass = is_pass (verify_arc message);
        dkim2_pass = dmarc_passes (verify_dkim2 message mail_from recipients);
        spf = spf_result spf_output;
        dmarc_pass = dmarc_passes dmarc.0 || dmarc_passes dmarc.1;
        dmarc_via_dkim = dmarc_passes dmarc.0;
        dmarc_via_spf = dmarc_passes dmarc.1;
      }

  unfoldable pub scored :
      Text → Text → Text → List Text → Option state.authenticator.Parsed → Fallible Verdict
  unfolding verdict_on
  scored remote_ip client mail_from recipients none = bail (codes "message failed to parse")
  scored remote_ip client mail_from recipients (some message) =
      yields (verdict_on remote_ip client mail_from recipients message)

  unfoldable pub score : Text → Text → Text → List Text → Bytes → Fallible Verdict
  unfolding scored
  score remote_ip client mail_from recipients raw =
      scored remote_ip client mail_from recipients (state.authenticator.parse raw)

  abbrev pub verdict_or : Text → List Text → Fallible Verdict → Verdict
  verdict_or mail_from recipients (yields v) = v
  verdict_or mail_from recipients (fails e) = unparseable_verdict mail_from recipients

  abbrev pub path_of : ℕ → Text
  path_of n = join state.capture_dir (padded n ++ codes ".eml")

  -- The message is written and its verdict is pushed.
  unfoldable pub capture : Bytes → Verdict → Captures Disk → Captures Disk
  unfolding digits summary
  capture raw v w =
      let path = path_of w.counter in
      record {
        verdicts = w.verdicts ++ v ∷ [];
        counter = (w.counter + 1) % 2 ^ 64;
        disk = state.write path raw w.disk;
        printed =
            if state.print
            then w.printed
              ++ (codes "[sink] captured " ++ (path ++ (codes " -> " ++ summary v))) ∷ []
            else w.printed;
      }

  abbrev pub Turn : Type 0
  Turn = List Text × (Option (Session × List Bytes) × Captures Disk)

  abbrev pub stay : Session → List Bytes → Captures Disk → List Text → Turn
  stay session lines w out = (out, (some (session, lines), w))

  -- The verdict on a message of a session.
  unfoldable pub judge : Text → Session → Bytes → Verdict
  unfolding score unparseable_verdict
  judge remote_ip session raw =
      let envelope_from = unwrap_or session.mail_from [] in
      verdict_or envelope_from session.recipients
        (score remote_ip session.helo envelope_from session.recipients raw)

  unfoldable pub accept_data : Text → Session → Bytes × List Bytes → Captures Disk → Turn
  unfolding capture judge
  accept_data remote_ip session (raw, rest) w =
      stay (reset session) rest (capture raw (judge remote_ip session raw) w) (
        codes "354 Start mail input; end with <CRLF>.<CRLF>\r\n"
        ∷ codes "250 2.6.0 Message accepted\r\n"
        ∷ [])

  unfoldable pub data_turn : Text → Option Text → Session → List Bytes → Captures Disk → Turn
  unfolding accept_data read_data
  data_turn remote_ip none session lines w =
      stay session lines w (codes "503 5.5.1 Need MAIL and RCPT\r\n" ∷ [])
  data_turn remote_ip (some from) session lines w =
      if is_empty session.recipients
      then stay session lines w (codes "503 5.5.1 Need MAIL and RCPT\r\n" ∷ [])
      else accept_data remote_ip session (read_data lines) w

  abbrev pub greeting : Text
  greeting = codes "250-" ++ (state.hostname ++ codes " greets you\r\n250 PIPELINING\r\n")

  unfoldable pub turn : Text → Option Request → Session → List Bytes → Captures Disk → Turn
  unfolding data_turn
  turn remote_ip none session lines w =
      stay session lines w (codes "500 5.5.2 Syntax error\r\n" ∷ [])
  turn remote_ip (some (ehlo h)) session lines w =
      stay (record (reset session) { helo = h }) lines w (greeting ∷ [])
  turn remote_ip (some (lhlo h)) session lines w =
      stay (record (reset session) { helo = h }) lines w (greeting ∷ [])
  turn remote_ip (some (helo h)) session lines w =
      stay (record session { helo = h }) lines w
        ((codes "250 " ++ (state.hostname ++ codes "\r\n")) ∷ [])
  turn remote_ip (some (mail from)) session lines w =
      stay (record session { mail_from = some from; recipients = [] }) lines w
        (codes "250 2.1.0 OK\r\n" ∷ [])
  turn remote_ip (some (rcpt to)) session lines w =
      stay (record session { recipients = session.recipients ++ to ∷ [] }) lines w
        (codes "250 2.1.5 OK\r\n" ∷ [])
  turn remote_ip (some data_) session lines w =
      data_turn remote_ip session.mail_from session lines w
  turn remote_ip (some rset) session lines w =
      stay (reset session) lines w (codes "250 2.0.0 OK\r\n" ∷ [])
  turn remote_ip (some noop) session lines w = stay session lines w (codes "250 2.0.0 OK\r\n" ∷ [])
  turn remote_ip (some quit) session lines w = (codes "221 2.0.0 Bye\r\n" ∷ [], (none, w))
  turn remote_ip (some other) session lines w =
      stay session lines w (codes "502 5.5.1 Command not implemented\r\n" ∷ [])

  abbrev pub after_turn :
      (Session → List Bytes → Captures Disk → List Text × Captures Disk)
      → Turn
      → List Text × Captures Disk
  after_turn next (out, (none, w)) = (out, w)
  after_turn next (out, (some (session, rest), w)) =
      let (more, w') = next session rest w in (out ++ more, w')

  -- The loop, on fuel: each turn reads at least one line.
  unfoldable pub session_loop :
      ℕ → Text → Session → List Bytes → Captures Disk → List Text × Captures Disk
  unfolding turn
  session_loop fuel remote_ip session [] w = ([], w)
  session_loop zero remote_ip session (line ∷ lines) w = ([], w)
  session_loop (suc fuel) remote_ip session (line ∷ lines) w =
      after_turn (session_loop fuel remote_ip) (turn remote_ip (state.parse line) session lines w)

  unfoldable pub handle : Text → List Bytes → Captures Disk → List Text × Captures Disk
  unfolding session_loop
  handle remote_ip lines w =
      let (out, w') = session_loop (length lines) remote_ip first_session lines w in
      ((codes "220 " ++ (state.hostname ++ codes " sink ready\r\n")) ∷ out, w')
