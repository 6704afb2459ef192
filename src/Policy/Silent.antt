-- ===== src/Policy/Silent.antt =====
-- The evaluations of `crates/carriers-core/src/policy.rs` that change nothing outside.
use carriers.Base.{
  Text, Bytes, Bool, true, false, Option, none, some, List, [], ◌∷◌, Action, pure, IsSilent,
  >>=-IsSilent, if◌then◌else◌, refl, ap,
}
use carriers.Policy.{
  Post, PolicyEngine, DomainScripts, no_lists, run_script, run_tier, run_scripts, run_domain,
  run_named, own_policy, evaluate, evaluate_before, check_loop, evaluate_after, rewrite_by,
  apply_list_headers, apply_munge_from, apply_subject_prefix, lookup,
}
use carriers.Policy.Outcome.{
  PolicyDecision, approve, moderate, discard, reject, Accumulator, is_terminal, merge,
  default_accumulator, outcome_from_run,
}
use carriers.SieveEngine.{Sieve, ExternalLists, no_duplicates, run}
use carriers.SieveEngine.Answers.{run-answered}

module _ (sieve : Sieve) {W : Type 0} where
  open sieve use {Script}

  run-IsSilent :
      (name : Text) (script : Script) (raw : Bytes) (mail_from : Text) (env : List (Text × Text))
      (lists : ExternalLists)
      → IsSilent {W = W} (run sieve name script raw mail_from env lists no_duplicates)
  run-IsSilent name script raw mail_from env lists w =
      ap (λ r. r.1) (run-answered sieve name script raw mail_from env lists (λ id expiry. false) w)

  run_tier-IsSilent :
      (script : Script) (name : Text) (post : Post)
      → IsSilent {W = W} (run_tier sieve script name post)
  unfolding run_tier run_script
  run_tier-IsSilent script name post =
      >>=-IsSilent (run_script sieve script name post post.sets no_duplicates post.extra_env)
        (λ r. pure (outcome_from_run r))
        (run-IsSilent name script post.raw post.mail_from _ post.sets) (λ r w. refl)

  if-IsSilent :
      {A : Type 0} (t : Bool) (a b : Action W A)
      → IsSilent a
      → IsSilent b
      → IsSilent (if t then a else b)
  if-IsSilent true a b h k = h
  if-IsSilent false a b h k = k

  run_scripts-IsSilent :
      (scripts : List Script) (name : Text) (post : Post) (acc : Accumulator)
      → IsSilent {W = W} (run_scripts sieve scripts name post acc)
  unfolding run_scripts
  run_scripts-IsSilent [] name post acc = λ w. refl
  run_scripts-IsSilent (script ∷ scripts) name post acc =
      if-IsSilent (is_terminal acc.decision) (pure acc) _ (λ w. refl)
        (>>=-IsSilent (run_tier sieve script name post)
          (λ out. run_scripts sieve scripts name post (merge acc out))
          (run_tier-IsSilent script name post)
          (λ out. run_scripts-IsSilent scripts name post (merge acc out)))

  run_domain-IsSilent :
      (select : DomainScripts sieve → List Script) (name : Text) (d : Option (DomainScripts sieve))
      (post : Post) (acc : Accumulator)
      → IsSilent {W = W} (run_domain sieve select name d post acc)
  unfolding run_domain
  run_domain-IsSilent select name none post acc = λ w. refl
  run_domain-IsSilent select name (some d) post acc = run_scripts-IsSilent (select d) name post acc

  pub evaluate_after-IsSilent :
      (engine : PolicyEngine sieve) (domain : Text) (post : Post)
      → IsSilent {W = W} (evaluate_after sieve engine domain post)
  unfolding evaluate_after
  evaluate_after-IsSilent engine domain post =
      >>=-IsSilent (run_scripts sieve (engine.dmarc_after_gate ∷ []) _ post default_accumulator) _
        (run_scripts-IsSilent (engine.dmarc_after_gate ∷ []) _ post default_accumulator)
        λ a.
          >>=-IsSilent (run_domain sieve (λ s. s.after) _ (lookup domain engine.domains) post a) _
            (run_domain-IsSilent (λ s. s.after) _ (lookup domain engine.domains) post a)
            λ b.
              >>=-IsSilent (run_scripts sieve engine.global_after _ post b) _
                (run_scripts-IsSilent engine.global_after _ post b) (λ c w. refl)

  rewrite_by-IsSilent :
      (script : Script) (name list_name list_id : Text) (env : List (Text × Text)) (raw : Bytes)
      → IsSilent {W = W} (rewrite_by sieve script name list_name list_id env raw)
  unfolding rewrite_by
  rewrite_by-IsSilent script name list_name list_id env raw =
      >>=-IsSilent (run sieve name script raw [] _ no_lists no_duplicates) _
        (run-IsSilent name script raw [] _ no_lists) (λ r w. refl)

  pub apply_list_headers-IsSilent :
      (engine : PolicyEngine sieve) (list_name list_id : Text) (env : List (Text × Text))
      (raw : Bytes)
      → IsSilent {W = W} (apply_list_headers sieve engine list_name list_id env raw)
  unfolding apply_list_headers
  apply_list_headers-IsSilent engine = rewrite_by-IsSilent engine.list_headers _

  pub apply_munge_from-IsSilent :
      (engine : PolicyEngine sieve) (list_name list_id : Text) (env : List (Text × Text))
      (raw : Bytes)
      → IsSilent {W = W} (apply_munge_from sieve engine list_name list_id env raw)
  unfolding apply_munge_from
  apply_munge_from-IsSilent engine = rewrite_by-IsSilent engine.munge_from_script _

  pub apply_subject_prefix-IsSilent :
      (engine : PolicyEngine sieve) (list_name list_id : Text) (env : List (Text × Text))
      (raw : Bytes)
      → IsSilent {W = W} (apply_subject_prefix sieve engine list_name list_id env raw)
  unfolding apply_subject_prefix
  apply_subject_prefix-IsSilent engine = rewrite_by-IsSilent engine.subject_prefix_script _

  pub check_loop-IsSilent :
      (engine : PolicyEngine sieve) (post : Post) → IsSilent {W = W} (check_loop sieve engine post)
  unfolding check_loop run_script
  check_loop-IsSilent engine post =
      >>=-IsSilent (run_script sieve engine.loop_check _ post no_lists no_duplicates []) _
        (run-IsSilent _ engine.loop_check post.raw post.mail_from _ no_lists) (λ r w. refl)

  evaluate-IsSilent :
      (engine : PolicyEngine sieve) (name : Text) (post : Post)
      → IsSilent {W = W} (evaluate sieve engine name post)
  unfolding evaluate
  evaluate-IsSilent engine name post = go (lookup name engine.policies)
    where
      go : (m : Option Script) → IsSilent {W = W} (run_named sieve name post m)
      go none = λ w. refl
      go (some script) = run_tier-IsSilent script name post

  own_policy-IsSilent :
      (engine : PolicyEngine sieve) (name : Text) (post : Post) (acc : Accumulator)
      (decision : PolicyDecision)
      → IsSilent {W = W} (own_policy sieve engine name post acc decision)
  unfolding own_policy
  own_policy-IsSilent engine name post acc approve =
      >>=-IsSilent (evaluate sieve engine name post) _ (evaluate-IsSilent engine name post)
        (λ out w. refl)
  own_policy-IsSilent engine name post acc moderate = λ w. refl
  own_policy-IsSilent engine name post acc discard = λ w. refl
  own_policy-IsSilent engine name post acc (reject reason) = λ w. refl

  pub evaluate_before-IsSilent :
      (engine : PolicyEngine sieve) (name domain : Text) (post : Post)
      → IsSilent {W = W} (evaluate_before sieve engine name domain post)
  unfolding evaluate_before
  evaluate_before-IsSilent engine name domain post =
      >>=-IsSilent (run_scripts sieve (engine.dmarc_before_gate ∷ []) _ post default_accumulator) _
        (run_scripts-IsSilent (engine.dmarc_before_gate ∷ []) _ post default_accumulator)
        λ a.
          >>=-IsSilent (run_scripts sieve engine.global_before _ post a) _
            (run_scripts-IsSilent engine.global_before _ post a)
            λ b.
              >>=-IsSilent
                (run_domain sieve (λ s. s.before) _ (lookup domain engine.domains) post b) _
                (run_domain-IsSilent (λ s. s.before) _ (lookup domain engine.domains) post b)
                λ c.
                  >>=-IsSilent (own_policy sieve engine name post c c.decision) _
                    (own_policy-IsSilent engine name post c c.decision) (λ e w. refl)
