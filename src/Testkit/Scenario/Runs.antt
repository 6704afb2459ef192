-- ===== src/Testkit/Scenario/Runs.antt =====
-- The scenarios of `crates/carriers-testkit/src/scenario.rs`, one by one.
use carriers.Base.{
  ℕ, Text, Bytes, Bool, true, false, ◌&&◌, Option, List, [], ◌∷◌, ◌++◌, codes, length, Fallible,
  yields, fails, Failure, caused, bailed, within, show_error, bail, if◌then◌else◌, ◌==◌, nat_eq,
  text_eq, text_beq,
}
use carriers.Cli.{Command, pure, ◌>>=◌, say, act}
use carriers.Keys.{KeyLibrary, DkimKey}
use carriers.Files.{Files}
use carriers.Testkit.Harness.{
  Harness, HarnessOpts, default_opts, author_from, posting_address, list_domain,
  spoofed_strict_domain, unconfigured_domain,
}
use carriers.Testkit.Sender.{Draft, AuthorSigner, prepare, sign_as_author, sign_as_author_dkim2}
use carriers.Testkit.Verdicts.{author_dkim_pass, dkim_pass_for, join_with}
use carriers.Testkit.Scenario.{
  Bench, built, submitted, send_and_score_from, send_and_score, check, report, draft, all_names,
  mark, outcome_line,
}

module _ {W : Type 0} (clock : W → Option ℕ) (library : KeyLibrary) (files : W → Files)
    (signer : AuthorSigner (DkimKey library)) (start : HarnessOpts → Command (Bench W) (Harness W))
    (fixture : Bytes) where
  -- What depends on the files as they are now.
  abbrev pub with_files : (Files → Fallible Bytes) → Command (Bench W) Bytes
  with_files f s = (f (files s.world.world), s)

  abbrev pub policy_opts : Text → HarnessOpts
  policy_opts policy = record { author_dmarc_policy = policy; print_verdicts = false }

  unfoldable pub author_signed_preject : Command (Bench W) Bool
  unfolding built sign_as_author send_and_score author_dkim_pass dkim_pass_for check report
  author_signed_preject = do
    h ← start (policy_opts (codes "reject"))
    raw ← built clock (draft (codes "Hello list (signed)"))
    signed ← with_files (λ files. sign_as_author library files signer raw h.author)
    verdict ← send_and_score clock h signed
    report (codes "author-signed-preject") verdict (
        check (codes "author DKIM survives") (author_dkim_pass verdict) true
        ∷ check (codes "list DKIM valid") (dkim_pass_for list_domain verdict) true
        ∷ check (codes "ARC cv=pass") verdict.arc_pass true
        ∷ check (codes "DMARC via DKIM alignment") verdict.dmarc_via_dkim true
        ∷ check (codes "DMARC pass overall") verdict.dmarc_pass true
        ∷ [])

  unfoldable pub no_dkim : Command (Bench W) Bool
  unfolding built send_and_score author_dkim_pass dkim_pass_for check report
  no_dkim = do
    h ← start (policy_opts (codes "reject"))
    raw ← built clock (draft (codes "Hello list (unsigned)"))
    verdict ← send_and_score clock h raw
    report (codes "no-dkim") verdict (
        check (codes "no surviving author DKIM") (author_dkim_pass verdict) false
        ∷ check (codes "list DKIM valid") (dkim_pass_for list_domain verdict) true
        ∷ check (codes "ARC cv=pass") verdict.arc_pass true
        ∷ check (codes "author-domain DMARC fails") verdict.dmarc_pass false
        ∷ [])

  unfoldable pub replay_eml : Command (Bench W) Bool
  unfolding prepare send_and_score dkim_pass_for check report
  replay_eml = do
    h ← start (policy_opts (codes "none"))
    verdict ← send_and_score clock h (prepare fixture)
    report (codes "replay-eml") verdict (
        check (codes "list DKIM valid") (dkim_pass_for list_domain verdict) true
        ∷ check (codes "ARC cv=pass") verdict.arc_pass true
        ∷ [])

  abbrev pub spoofed_from : Text
  spoofed_from = codes "mallory@" ++ spoofed_strict_domain

  abbrev pub spoofed_draft : Draft
  spoofed_draft = record {
    from = spoofed_from;
    to = posting_address;
    subject = codes "Urgent: impersonated identity";
    body = codes "This message claims a strict domain's identity with no valid authentication.\n";
    extra_headers = [];
  }

  abbrev pub is_rejected : Fallible (Unit {0}) → Bool
  is_rejected (yields u) = false
  is_rejected (fails e) = true

  -- What `{e}` prints of a failure: its outermost context.
  abbrev pub display : Failure → Text
  display (caused e) = show_error e
  display (bailed text) = text
  display (within text e) = text

  abbrev pub submission_line : Fallible (Unit {0}) → Text
  submission_line (yields u) = codes "  submission: accepted (unexpected)"
  submission_line (fails e) = codes "  submission: rejected (" ++ (display e ++ codes ")")

  abbrev pub plain_line : Text → Bool → Text
  plain_line label holds = codes "  [" ++ (mark holds ++ (codes "] " ++ label))

  unfoldable pub dmarc_reject_spoofed : Command (Bench W) Bool
  unfolding built submitted
  dmarc_reject_spoofed = do
    h ← start default_opts
    before ← act (λ b. (length (h.verdicts b.world), b))
    raw ← built clock spoofed_draft
    result ← submitted clock h spoofed_from posting_address raw
    after ← act (λ b. (length (h.verdicts b.world), b))
    _ ← say (codes "\n=== scenario: dmarc-reject-spoofed ===")
    _ ← say (submission_line result)
    _ ← say (plain_line (codes "SMTP submission rejected") (is_rejected result))
    _ ← say (plain_line (codes "no copy reached the sink") (after == before))
    let all_ok = is_rejected result && (after == before)
    _ ← say (outcome_line all_ok)
    pure all_ok

  abbrev pub unconfigured_from : Text
  unconfigured_from = codes "casey@" ++ unconfigured_domain

  unfoldable pub dmarc_none_no_signature : Command (Bench W) Bool
  unfolding built send_and_score_from dkim_pass_for check report
  dmarc_none_no_signature = do
    h ← start default_opts
    raw ← built clock (record {
      from = unconfigured_from;
      to = posting_address;
      subject = codes "No DMARC configured";
      body = codes "This domain has no DMARC, DKIM or SPF record at all.\n";
      extra_headers = [];
    })
    verdict ← send_and_score_from clock h unconfigured_from posting_address raw
    report (codes "dmarc-none-no-signature") verdict (
        check (codes "list DKIM withheld") (dkim_pass_for list_domain verdict) false
        ∷ check (codes "ARC cv=pass") verdict.arc_pass true
        ∷ [])

  unfoldable pub dkim2_signing : Command (Bench W) Bool
  unfolding built sign_as_author_dkim2 send_and_score dkim_pass_for check report
  dkim2_signing = do
    h ← start default_opts
    raw ← built clock (draft (codes "Hello list (DKIM2)"))
    signed ← with_files (λ files.
        sign_as_author_dkim2 library files signer raw h.author_dkim2 author_from posting_address)
    verdict ← send_and_score clock h signed
    report (codes "dkim2-signing") verdict (
        check (codes "list DKIM valid") (dkim_pass_for list_domain verdict) true
        ∷ check (codes "ARC cv=pass") verdict.arc_pass true
        ∷ check (codes "DKIM2 chain extended and valid against the delivery envelope")
            verdict.dkim2_pass true
        ∷ [])

  unfoldable pub dkim2_not_originated : Command (Bench W) Bool
  unfolding built send_and_score dkim_pass_for check report
  dkim2_not_originated = do
    h ← start default_opts
    raw ← built clock (draft (codes "Hello list (no DKIM2)"))
    verdict ← send_and_score clock h raw
    report (codes "dkim2-not-originated") verdict (
        check (codes "list DKIM valid") (dkim_pass_for list_domain verdict) true
        ∷ check (codes "ARC cv=pass") verdict.arc_pass true
        ∷ check (codes "no DKIM2 chain originated") verdict.dkim2_pass false
        ∷ [])

  -- The arms of `run`, by name.
  abbrev pub arms : List (Text × Command (Bench W) Bool)
  unfolding author_signed_preject no_dkim replay_eml dmarc_reject_spoofed dmarc_none_no_signature
      dkim2_signing dkim2_not_originated
  arms =
      (codes "author-signed-preject", author_signed_preject)
      ∷ (codes "no-dkim", no_dkim)
      ∷ (codes "replay-eml", replay_eml)
      ∷ (codes "dmarc-reject-spoofed", dmarc_reject_spoofed)
      ∷ (codes "dmarc-none-no-signature", dmarc_none_no_signature)
      ∷ (codes "dkim2-signing", dkim2_signing)
      ∷ (codes "dkim2-not-originated", dkim2_not_originated)
      ∷ []

  abbrev pub run_arm : List (Text × Command (Bench W) Bool) → Text → Command (Bench W) Bool
  run_arm [] name s = (
    bail (
        codes "unknown scenario `"
        ++ (name ++ (codes "` (known: " ++ (join_with (codes ", ") all_names ++ codes ")")))),
    s,
  )
  run_arm ((known, scenario) ∷ rest) name s =
      if name == known then scenario s else run_arm rest name s

  unfoldable pub run : Text → Command (Bench W) Bool
  unfolding arms text_beq
  run name = run_arm arms name
