-- ===== src/Testkit/Sink/Sessions.antt =====
-- What a connection leaves in the sink of `crates/carriers-testkit/src/sink.rs`.
use carriers.Base.{
  ◌%◌, ◌^◌, ℕ, suc, ◌+◌, Text, Bytes, false, some, List, [], ◌∷◌, ◌++◌, map, codes, length,
  is_empty, starts_with, All, if◌then◌else◌, nat_eq, text_eq, ◌≡◌, refl,
}
use carriers.Smtp
use carriers.Smtp.{rcpt}
use carriers.Smtp.Data.{stuffed, concat, read_data-stuffed}
use carriers.Testkit.Sink.{
  path_of, Captures, Session, SinkState, reset, read_data, from_start, judge, capture, accept_data,
  data_turn, Turn, stay,
}
use carriers.Testkit.Verdicts.{Verdict}

-- The sink reads a message as the listener does.
from_start-agrees : (line : Bytes) → from_start line ≡ Smtp.unstuffed line
unfolding Smtp.unstuffed
from_start-agrees [] = refl
from_start-agrees (c ∷ line) = refl

read_data-agrees : (lines : List Bytes) → read_data lines ≡ Smtp.read_data lines
unfolding read_data Smtp.read_data
read_data-agrees [] = refl
read_data-agrees (line ∷ lines) = rw (read_data-agrees lines, from_start-agrees line) refl

-- The replies that let a message begin.
abbrev pub go_aheads : List Text → ℕ
go_aheads [] = 0
go_aheads (r ∷ out) =
    let rest = go_aheads out in if starts_with (codes "354") r then suc rest else rest

module _ {Disk : Type 0} (state : SinkState Disk) where
  abbrev pub capture_all : List (Bytes × Verdict) → Captures Disk → Captures Disk
  capture_all [] w = w
  capture_all ((raw, v) ∷ ms) w = capture_all ms (capture state raw v w)

  -- The verdict is the one on that message, for some session, and names a recipient.
  abbrev pub Addressed : Text → Bytes × Verdict → Type 0
  Addressed remote_ip (raw, v) =
      (session : Session) × ((v ≡ judge state remote_ip session raw) × (is_empty v.rcpt ≡ false))

  -- The replies `out` and the state `w'` after `w` are those of some messages.
  abbrev IsFolded : Text → Captures Disk → List Text × Captures Disk → Type 0
  IsFolded remote_ip w (out, w') =
      (ms : List (Bytes × Verdict)) × ((w' ≡ capture_all ms w)
        × ((go_aheads out ≡ length ms) × All (Addressed remote_ip) ms))

  -- What a turn leaves.
  abbrev pub after : Captures Disk → Turn state → List Text × Captures Disk
  after w (out, (next, w')) = (out, w')

  -- What the sink holds after some messages: a verdict on each, in order, behind those it had, a
  -- counter that many higher, and a file for each under the numbers from the old counter on.
  abbrev pub written : ℕ → List (Bytes × Verdict) → Disk → Disk
  written n [] disk = disk
  written n ((raw, v) ∷ ms) disk =
      written ((n + 1) % 2 ^ 64) ms (state.write (path_of state n) raw disk)

  abbrev pub Holds : List (Bytes × Verdict) → Captures Disk → Captures Disk → Type 0
  Holds ms w w' =
      (w'.verdicts ≡ w.verdicts ++ map (λ m. m.1) ms)
      × ((w'.counter ≡ (w.counter + length ms) % 2 ^ 64) × (w'.disk ≡ written w.counter ms w.disk))

  abbrev pub IsCaptured : Text → Captures Disk → List Text × Captures Disk → Type 0
  IsCaptured remote_ip w (out, w') =
      (ms : List (Bytes × Verdict)) × (Holds ms w w'
        × ((go_aheads out ≡ length ms) × All (Addressed remote_ip) ms))

  -- A message that a client of a session with a sender and recipients sends dot-stuffed is captured
  -- byte for byte with the verdict on it, and the session goes on reset behind it.
  pub data_turn-stuffed :
      (remote_ip from : Text) (session : Session) (message rest : List Bytes) (w : Captures Disk)
      → is_empty session.recipients ≡ false
      → data_turn state remote_ip
          (some from)
          session
          (map stuffed message ++ (codes ".\r\n" ∷ rest))
          w
        ≡ stay state
            (reset session)
            rest
            (capture state (concat message) (judge state remote_ip session (concat message)) w)
            (codes "354 Start mail input; end with <CRLF>.<CRLF>\r\n"
              ∷ codes "250 2.6.0 Message accepted\r\n"
              ∷ [])
  unfolding data_turn accept_data
  data_turn-stuffed remote_ip from session message rest w h =
      rw
        (
          h,
          read_data-agrees (map stuffed message ++ (codes ".\r\n" ∷ rest)),
          read_data-stuffed message rest,
        )
        refl
