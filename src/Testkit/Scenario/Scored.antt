-- ===== src/Testkit/Scenario/Scored.antt =====
-- The wait for a verdict in `crates/carriers-testkit/src/scenario.rs`.
use carriers.Base.{
  ℕ, zero, suc, ◌<◌, Text, Bytes, Option, some, length, yields, arith, ◌≡◌, refl, ap, Option-cases,
  inl, inr,
}
use carriers.Cli.{Screen}
use carriers.Testkit.Harness.{Harness}
use carriers.Testkit.Scenario.{Bench, nth_verdict, poll, send_and_score_from, arrived, submitted}
use carriers.Testkit.Sender.{inject}
use carriers.Testkit.Verdicts.{Verdict}

module _ {W : Type 0} (clock : W → Option ℕ) (h : Harness W) where
  abbrev pub slept : ℕ → W → W
  slept zero w = w
  slept (suc k) w = slept k (h.sleep w)

  poll-arrives :
      (n k before : ℕ) (u : Verdict) (w : W)
      → k < n
      → nth_verdict before (h.verdicts (slept k w)) ≡ some u
      → (v : Verdict) × (((poll clock h n before w).0 ≡ some v)
          × (nth_verdict before (h.verdicts (poll clock h n before w).1) ≡ some v))
  unfolding poll
  poll-arrives zero k before u w l e = absurd (omega arith)
  poll-arrives (suc n) zero before u w l e =
      let now : nth_verdict before (h.verdicts w) ≡ some u = e in (u, rw (poll, now) (refl, now))
  poll-arrives (suc n) (suc k) before u w l e =
      elim (Option-cases (nth_verdict before (h.verdicts w))) [
        | inl absent ↦ rw (poll, absent) (poll-arrives n k before u (h.sleep w) (omega arith) e)
        | inr (v, found) ↦ (v, rw (poll, found) (refl, found))
      ]

  -- If the submission is accepted and, before the 100th sleep of the caller ends, the sink has a
  -- verdict behind those that it had before the submission, then that verdict is the result, the
  -- first that came.
  pub send_and_score_from-arrives :
      (mail_from to : Text) (raw : Bytes) (s : Screen (Bench W)) (w : W) (k : ℕ) (u : Verdict)
      → inject h.client h.ingress_host h.ingress_port mail_from to raw s.world.world
        ≡ (yields tt, w)
      → k < 100
      → nth_verdict (length (h.verdicts s.world.world)) (h.verdicts (slept k w)) ≡ some u
      → (let out = send_and_score_from clock h mail_from to raw s in
          (v : Verdict) × ((out.0 ≡ yields v)
            × (nth_verdict (length (h.verdicts s.world.world)) (h.verdicts out.1.world.world)
                ≡ some v)))
  unfolding send_and_score_from submitted
  send_and_score_from-arrives mail_from to raw s w k u sent l e =
      let before = length (h.verdicts s.world.world) in
      let (v, (found, final)) = poll-arrives 100 k before u w l e in
      rw sent (v, (ap (arrived clock h) found, final))
