-- ===== src/Smtp/Sessions.antt =====
-- The session of `crates/carriers/src/smtp.rs`: how its turns follow each other, and that its loop
-- ends.
use carriers.Base.{
  ℕ, zero, suc, Text, Bytes, true, false, Option, none, some, List, [], ◌∷◌, is_empty, length, ◌≤◌,
  arith, ◌≡◌, refl, ap, Bool-cases, inl, inr,
}
use carriers.Base.Maybe.{is_some}
use carriers.Smtp.{
  Session, Recipient, Services, Turn, turn, rcpt_turn, data_turn, after_turn, session_loop, Request,
  ehlo, lhlo, helo, mail, rcpt, data_, rset, noop, quit, other, classify_recipient,
}
use carriers.Smtp.Data.{read_data-length}
use carriers.State.{AppState}

-- Recipients are recorded after a sender only.
abbrev pub IsOrdered : {Key : Type 0} → Session Key → Type 0
IsOrdered session = is_empty session.recipients ≡ false → is_some session.mail_from ≡ true

module _ {F Key W : Type 0} (services : Services F Key W) (state : AppState F Key) where
  -- What a turn promises: the next session is ordered, and no line is left that was not there.
  abbrev pub Keeps : ℕ → Turn services state → Type 0
  Keeps n (out, (none, w)) = Unit
  Keeps n (out, (some (next, rest), w)) = IsOrdered next × (length rest ≤ n)

  rcpt_turn-Keeps :
      (from : Option Text) (found : Option (Recipient Key)) (session : Session Key)
      (lines : List Bytes) (w : W)
      → session.mail_from ≡ from
      → IsOrdered session
      → Keeps (length lines) (rcpt_turn services state from found session lines w)
  unfolding rcpt_turn
  rcpt_turn-Keeps none found session lines w e h = (h, omega arith)
  rcpt_turn-Keeps (some from) (some r) session lines w e h = ((λ _. ap is_some e), omega arith)
  rcpt_turn-Keeps (some from) none session lines w e h = (h, omega arith)

  data_turn-Keeps :
      (remote_ip : Text) (session : Session Key) (lines : List Bytes) (w : W)
      → IsOrdered session
      → Keeps (length lines) (data_turn services state remote_ip session lines w)
  unfolding data_turn
  data_turn-Keeps remote_ip session lines w h = elim (Bool-cases (is_empty session.recipients)) [
    | inl e ↦ rw e (h, omega arith)
    | inr e ↦ rw e ((λ k. absurd (cc)), read_data-length lines)
  ]

  -- From an ordered session, every command leaves an ordered session, and reads no line twice: so
  -- recipients are only ever recorded after a sender.
  pub turn-IsOrdered :
      (remote_ip : Text) (request : Option Request) (session : Session Key) (lines : List Bytes)
      (w : W)
      → IsOrdered session
      → Keeps (length lines) (turn services state remote_ip request session lines w)
  unfolding turn
  turn-IsOrdered remote_ip none session lines w h = (h, omega arith)
  turn-IsOrdered remote_ip (some (ehlo x)) session lines w h = ((λ k. absurd (cc)), omega arith)
  turn-IsOrdered remote_ip (some (lhlo x)) session lines w h = ((λ k. absurd (cc)), omega arith)
  turn-IsOrdered remote_ip (some (helo x)) session lines w h = ((λ k. absurd (cc)), omega arith)
  turn-IsOrdered remote_ip (some (mail x)) session lines w h = ((λ k. refl), omega arith)
  turn-IsOrdered remote_ip (some (rcpt x)) session lines w h =
      rcpt_turn-Keeps session.mail_from (classify_recipient state x) session lines w refl h
  turn-IsOrdered remote_ip (some data_) session lines w h =
      data_turn-Keeps remote_ip session lines w h
  turn-IsOrdered remote_ip (some rset) session lines w h = ((λ k. absurd (cc)), omega arith)
  turn-IsOrdered remote_ip (some noop) session lines w h = (h, omega arith)
  turn-IsOrdered remote_ip (some quit) session lines w h = tt
  turn-IsOrdered remote_ip (some other) session lines w h = (h, omega arith)

  after_turn-agree :
      (f g : Session Key → List Bytes → W → List Text × W) (n : ℕ) (t : Turn services state)
      → Keeps n t
      → ((s : Session Key) (rest : List Bytes) (w : W)
          → IsOrdered s
          → length rest ≤ n
          → f s rest w ≡ g s rest w)
      → after_turn services state f t ≡ after_turn services state g t
  after_turn-agree f g n (out, (none, w)) k h = refl
  after_turn-agree f g n (out, (some (s, rest), w)) (o, l) h = rw (h s rest w o l) refl

  -- The loop ends with the input: any two amounts of fuel that allow one turn for each line that the
  -- client sends give the same writes and the same effects.
  pub session_loop-fuel :
      (m n : ℕ) (remote_ip : Text) (session : Session Key) (lines : List Bytes) (w : W)
      → IsOrdered session
      → length lines ≤ m
      → length lines ≤ n
      → session_loop services state m remote_ip session lines w
        ≡ session_loop services state n remote_ip session lines w
  unfolding session_loop
  session_loop-fuel m n remote_ip session [] w h k l = refl
  session_loop-fuel zero n remote_ip session (line ∷ lines) w h k l = absurd (omega arith)
  session_loop-fuel (suc m) zero remote_ip session (line ∷ lines) w h k l = absurd (omega arith)
  session_loop-fuel (suc m) (suc n) remote_ip session (line ∷ lines) w h k l =
      after_turn-agree (session_loop services state m remote_ip)
        (session_loop services state n remote_ip) (length lines)
        (turn services state remote_ip (services.parse line) session lines w)
        (turn-IsOrdered remote_ip (services.parse line) session lines w h)
        (λ s rest v o b. session_loop-fuel m n remote_ip s rest v o (omega arith) (omega arith))
