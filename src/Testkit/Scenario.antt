-- ===== src/Testkit/Scenario.antt =====
-- `crates/carriers-testkit/src/scenario.rs`: the scenarios. Each starts a harness, sends one message
-- and checks the verdict on the copy that is delivered. How a harness starts is a parameter, and so
-- is the message that is replayed, `examples/testkit/messages/plain.eml`.
pub mod Scored
pub mod Runs
use carriers.Base.{
  ℕ, zero, suc, Text, Bytes, Bool, true, false, not, ◌&&◌, Option, none, some, List, [], ◌∷◌, ◌++◌,
  codes, length, ltb, Fallible, yields, fails, Failure, caused, bailed, within, show_error, bail,
  if◌then◌else◌, ◌==◌, nat_eq, text_eq, text_beq,
}
use carriers.Cli.{Screen, Command, pure, try_, ◌>>=◌, ◌>>◌, say, act}
use carriers.Keys.{KeyLibrary, DkimKey}
use carriers.Files.{Files}
use carriers.Testkit.Harness.{
  Harness, HarnessOpts, default_opts, author_from, posting_address, list_domain,
  spoofed_strict_domain, unconfigured_domain,
}
use carriers.Testkit.Sender.{
  Draft, AuthorSigner, build, prepare, inject, sign_as_author, sign_as_author_dkim2,
}
use carriers.Testkit.Verdicts.{Verdict, summary, author_dkim_pass, dkim_pass_for, join_with}

-- The names, in the order of `ALL`.
abbrev pub all_names : List Text
all_names =
    codes "author-signed-preject"
    ∷ codes "no-dkim"
    ∷ codes "replay-eml"
    ∷ codes "dmarc-reject-spoofed"
    ∷ codes "dmarc-none-no-signature"
    ∷ codes "dkim2-signing"
    ∷ codes "dkim2-not-originated"
    ∷ []

abbrev pub draft : Text → Draft
draft subject = record {
  from = author_from;
  to = posting_address;
  subject = subject;
  body = codes "Hello, list. This body must survive byte-for-byte.\n";
  extra_headers = [];
}

abbrev pub same : Bool → Bool → Bool
same true b = b
same false b = not b

pub record Check : Type 0 where
  pub label : Text
  pub ok : Bool
  pub got : Bool
  pub want : Bool

unfoldable pub check : Text → Bool → Bool → Check
check label got want = record { label = label; ok = same got want; got = got; want = want }

abbrev pub yesno : Bool → Text
yesno true = codes "yes"
yesno false = codes "no"

abbrev pub mark : Bool → Text
mark true = codes "OK  "
mark false = codes "FAIL"

abbrev pub outcome_line : Bool → Text
outcome_line all_ok = codes "  result: " ++ (if all_ok then codes "PASS" else codes "FAIL")

abbrev pub check_line : Check → Text
check_line c =
    codes "  ["
    ++ (mark c.ok
        ++ (codes "] "
            ++ (c.label
                ++ (codes " (want "
                    ++ (yesno c.want ++ (codes ", got " ++ (yesno c.got ++ codes ")")))))))

module _ {W : Type 0} where
  -- The loop over the checks, with what holds so far.
  unfoldable pub report_checks : Bool → List Check → Command W Bool
  report_checks all_ok [] = pure all_ok
  report_checks all_ok (c ∷ checks) = do
    _ ← say (check_line c)
    report_checks (all_ok && c.ok) checks

  unfoldable pub report : Text → Verdict → List Check → Command W Bool
  unfolding report_checks summary
  report name verdict checks = do
    _ ← say (codes "\n=== scenario: " ++ (name ++ codes " ==="))
    _ ← say (codes "  delivered: " ++ summary verdict)
    all_ok ← report_checks true checks
    _ ← say (outcome_line all_ok)
    pure all_ok

-- The process: its counter of messages, and the world.
pub record Bench (W : Type 0) : Type 0 where
  pub seq : ℕ
  pub world : W

abbrev pub nth_verdict : ℕ → List Verdict → Option Verdict
nth_verdict n [] = none
nth_verdict zero (v ∷ vs) = some v
nth_verdict (suc n) (v ∷ vs) = nth_verdict n vs

module _ {W : Type 0} (clock : W → Option ℕ) where
  abbrev pub bench_act : {A : Type 0} → (W → A × W) → Command (Bench W) A
  bench_act f = act (λ b. let (a, w) = f b.world in (a, record b { world = w }))

  -- `sender::build`, with the counter of the process and the clock.
  unfoldable pub built : Draft → Command (Bench W) Bytes
  unfolding build
  built d =
      act (λ b. let (raw, seq') = build d (clock b.world) b.seq in (raw, record b { seq = seq' }))

  module _ (h : Harness W) where
    -- The loop that waits for a verdict behind the first `before`.
    unfoldable pub poll : ℕ → ℕ → W → Option Verdict × W
    poll zero before w = (none, w)
    poll (suc n) before w = elim (nth_verdict before (h.verdicts w)) [
      | some v ↦ (some v, w)
      | none ↦ poll n before (h.sleep w)
    ]

    abbrev pub arrived : Option Verdict → Fallible Verdict
    arrived (some v) = yields v
    arrived none = bail (codes "no delivered copy reached the sink (was the message distributed?)")

    abbrev pub submitted : Text → Text → Bytes → Command (Bench W) (Fallible (Unit {0}))
    unfolding inject
    submitted mail_from to raw =
        bench_act (inject h.client h.ingress_host h.ingress_port mail_from to raw)

    unfoldable pub send_and_score_from : Text → Text → Bytes → Command (Bench W) Verdict
    unfolding poll submitted
    send_and_score_from mail_from to raw = do
      before ← act (λ b. (length (h.verdicts b.world), b))
      sent ← submitted mail_from to raw
      _ ← try_ sent
      found ← bench_act (poll 100 before)
      try_ (arrived found)

    unfoldable pub send_and_score : Bytes → Command (Bench W) Verdict
    unfolding send_and_score_from
    send_and_score raw = send_and_score_from author_from posting_address raw
