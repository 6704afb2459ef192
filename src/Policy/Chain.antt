-- ===== src/Policy/Chain.antt =====
-- The two halves of the policy chain, `evaluate_before` and `evaluate_after` of
-- crates/carriers-core/src/policy.rs, against the outcomes of their tiers: which tiers decide, in
-- which order, and what the flags add up to.
use carriers.Base.{
  Text, true, Option, none, some, List, [], ◌∷◌, ◌++◌, codes, config, pure, Result, ok, err,
  and_then, >>=-known, sym, arith, ◌≡◌, refl, ◌∙◌, ap,
}
use carriers.SieveEngine.{Sieve}
use carriers.Policy.{
  Post, PolicyEngine, lookup, run_scripts, run_domain, own_policy, run_named, evaluate,
  evaluate_before, evaluate_after,
}
use carriers.Policy.Outcome.{
  PolicyDecision, approve, moderate, discard, reject, PolicyOutcome, Accumulator,
  default_accumulator, merge, into_outcome, is_terminal,
}
use carriers.Policy.Fold.{fold, and_then-fold_three, settled, fold_last}
use carriers.Policy.Tiers.{
  tier, run_tier-tier, results, run_scripts-fold, domain_scripts, run_domain-fold,
}

module _ (sieve : Sieve) (post : Post) (engine : PolicyEngine sieve) where
  -- The results of the tiers that run ahead of the list's own policy, and of those after it.
  abbrev pub before_results : Text → List (Result PolicyOutcome)
  before_results domain =
      results sieve post (codes "dmarc-before") (engine.dmarc_before_gate ∷ [])
      ++ (results sieve post (codes "global-before") engine.global_before
          ++ results sieve post (codes "domain-before")
              (domain_scripts sieve post (λ d. d.before) (lookup domain engine.domains)))

  abbrev pub after_results : Text → List (Result PolicyOutcome)
  after_results domain =
      results sieve post (codes "dmarc-after") (engine.dmarc_after_gate ∷ [])
      ++ (results sieve post (codes "domain-after")
            (domain_scripts sieve post (λ d. d.after) (lookup domain engine.domains))
          ++ results sieve post (codes "global-after") engine.global_after)

  named_result : Text → Option sieve.Script → Result PolicyOutcome
  named_result name none = err (config (codes "unknown policy `" ++ name ++ codes "`"))
  named_result name (some script) = tier sieve post name script

  -- The result of the list's own policy.
  unfoldable pub own_result : Text → Result PolicyOutcome
  unfolding named_result
  own_result name = named_result name (lookup name engine.policies)

  run_named-result :
      {W : Type 0} (name : Text) (o : Option sieve.Script) (w : W)
      → run_named sieve name post o w ≡ (named_result name o, w)
  unfolding run_named named_result
  run_named-result name none w = refl
  run_named-result name (some script) w = run_tier-tier sieve post name script w

  evaluate-own_result :
      {W : Type 0} (name : Text) (w : W) → evaluate sieve engine name post w ≡ (own_result name, w)
  unfolding evaluate own_result
  evaluate-own_result name w = run_named-result name (lookup name engine.policies) w

  -- What is added to the accumulator of the earlier tiers, whose decision is given.
  unfoldable pub own_fold : Text → Accumulator → PolicyDecision → Result Accumulator
  own_fold name acc approve = and_then (own_result name) (λ out. ok (merge acc out))
  own_fold name acc _ = ok acc

  own_policy-fold :
      {W : Type 0} (name : Text) (acc : Accumulator) (d : PolicyDecision) (w : W)
      → own_policy sieve engine name post acc d w ≡ (own_fold name acc d, w)
  unfolding own_policy own_fold
  own_policy-fold name acc approve w =
      >>=-known (evaluate sieve engine name post) (λ out. pure (merge acc out))
        (λ out. ok (merge acc out)) (own_result name) w (evaluate-own_result name w) (λ out. refl)
  own_policy-fold name acc moderate w = refl
  own_policy-fold name acc discard w = refl
  own_policy-fold name acc (reject r) w = refl

  -- The before half as one result, from the results of its tiers.
  unfoldable pub before_result : Text → Text → Result PolicyOutcome
  before_result policy_name domain =
      and_then (fold (before_results domain) default_accumulator)
        λ acc. and_then (own_fold policy_name acc acc.decision) λ final. ok (into_outcome final)

  unfoldable pub after_result : Text → Result PolicyOutcome
  after_result domain =
      and_then (fold (after_results domain) default_accumulator) λ acc. ok (into_outcome acc)

  pub evaluate_before-result :
      {W : Type 0} (policy_name domain : Text) (w : W)
      → evaluate_before sieve engine policy_name domain post w
        ≡ (before_result policy_name domain, w)
  unfolding evaluate_before before_result
  evaluate_before-result policy_name domain w =
      let finish_ : Accumulator → Result PolicyOutcome = λ acc.
        and_then (own_fold policy_name acc acc.decision) (λ final. ok (into_outcome final)) in
      let gate = results sieve post (codes "dmarc-before") (engine.dmarc_before_gate ∷ []) in
      let global = results sieve post (codes "global-before") engine.global_before in
      let found = lookup domain engine.domains in
      let local =
        results sieve post (codes "domain-before")
          (domain_scripts sieve post (λ d. d.before) found) in
      >>=-known
        (run_scripts sieve (engine.dmarc_before_gate ∷ []) (codes "dmarc-before") post
          default_accumulator)
        _ (λ a. and_then (fold global a) (λ b. and_then (fold local b) finish_))
        (fold gate default_accumulator) w
        (run_scripts-fold sieve post (engine.dmarc_before_gate ∷ []) (codes "dmarc-before")
          default_accumulator w)
        (λ a.
          >>=-known (run_scripts sieve engine.global_before (codes "global-before") post a) _
            (λ b. and_then (fold local b) finish_) (fold global a) w
            (run_scripts-fold sieve post engine.global_before (codes "global-before") a w)
            (λ b.
              >>=-known (run_domain sieve (λ d. d.before) (codes "domain-before") found post b) _
                finish_ (fold local b) w
                (run_domain-fold sieve post (λ d. d.before) (codes "domain-before") found b w)
                (λ c.
                  >>=-known (own_policy sieve engine policy_name post c c.decision)
                    (λ e. pure (into_outcome e)) (λ e. ok (into_outcome e))
                    (own_fold policy_name c c.decision) w
                    (own_policy-fold policy_name c c.decision w) (λ e. refl))))
      ∙ ap (λ r. (r, w)) (sym (and_then-fold_three gate global local default_accumulator finish_))

  pub evaluate_after-result :
      {W : Type 0} (domain : Text) (w : W)
      → evaluate_after sieve engine domain post w ≡ (after_result domain, w)
  unfolding evaluate_after after_result
  evaluate_after-result domain w =
      let finish_ : Accumulator → Result PolicyOutcome = λ acc. ok (into_outcome acc) in
      let gate = results sieve post (codes "dmarc-after") (engine.dmarc_after_gate ∷ []) in
      let global = results sieve post (codes "global-after") engine.global_after in
      let found = lookup domain engine.domains in
      let local =
        results sieve post (codes "domain-after")
          (domain_scripts sieve post (λ d. d.after) found) in
      >>=-known
        (run_scripts sieve (engine.dmarc_after_gate ∷ []) (codes "dmarc-after") post
          default_accumulator)
        _ (λ a. and_then (fold local a) (λ b. and_then (fold global b) finish_))
        (fold gate default_accumulator) w
        (run_scripts-fold sieve post (engine.dmarc_after_gate ∷ []) (codes "dmarc-after")
          default_accumulator w)
        (λ a.
          >>=-known (run_domain sieve (λ d. d.after) (codes "domain-after") found post a) _
            (λ b. and_then (fold global b) finish_) (fold local a) w
            (run_domain-fold sieve post (λ d. d.after) (codes "domain-after") found a w)
            (λ b.
              >>=-known (run_scripts sieve engine.global_after (codes "global-after") post b)
                (λ c. pure (into_outcome c)) finish_ (fold global b) w
                (run_scripts-fold sieve post engine.global_after (codes "global-after") b w)
                (λ c. refl)))
      ∙ ap (λ r. (r, w)) (sym (and_then-fold_three gate local global default_accumulator finish_))

  -- What the list's own policy makes of the outcomes before it: it is consulted on approval only.
  abbrev pub with_own : Text → List PolicyOutcome → PolicyDecision → Result PolicyOutcome
  with_own name os approve = and_then (own_result name) (λ out. ok (settled (os ++ out ∷ [])))
  with_own name os _ = ok (settled os)

  own_fold_last :
      (name : Text) (out : PolicyOutcome)
      → is_terminal out.decision ≡ true
      → (let acc = merge default_accumulator out in
          and_then (own_fold name acc acc.decision) (λ final. ok (into_outcome final)) ≡ ok out)
  unfolding own_fold into_outcome merge is_terminal
  own_fold_last name out k = ground arith

  -- If the built-in DMARC gate discards or rejects the post, that is the outcome of the before
  -- half, flags included, whatever the other scripts are, and even if the name of the list's policy
  -- is unknown: no other script is run.
  pub evaluate_before_gate :
      {W : Type 0} (policy_name domain : Text) (out : PolicyOutcome) (w : W)
      → tier sieve post (codes "dmarc-before") engine.dmarc_before_gate ≡ ok out
      → is_terminal out.decision ≡ true
      → evaluate_before sieve engine policy_name domain post w ≡ (ok out, w)
  unfolding before_result
  evaluate_before_gate policy_name domain out w h k =
      let rest =
        results sieve post (codes "global-before") engine.global_before
        ++ results sieve post (codes "domain-before")
            (domain_scripts sieve post (λ d. d.before) (lookup domain engine.domains)) in
      let finish_ : Accumulator → Result PolicyOutcome = λ acc.
        and_then (own_fold policy_name acc acc.decision) (λ final. ok (into_outcome final)) in
      evaluate_before-result policy_name domain w
      ∙ ap (λ r. (and_then (fold (r ∷ rest) default_accumulator) finish_, w)) h
      ∙ ap (λ r. (and_then r finish_, w)) (fold_last out rest k)
      ∙ ap (λ r. (r, w)) (own_fold_last policy_name out k)
