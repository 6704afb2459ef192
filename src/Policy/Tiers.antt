-- ===== src/Policy/Tiers.antt =====
-- One tier of the policy chain and a list of tiers, as results that do not depend on the world
-- (crates/carriers-core/src/policy.rs, `run_tier`, `run_scripts`).
use carriers.Base.{
  Text, false, Option, none, some, List, [], ◌∷◌, map, pure, Result, ok, and_then, >>=-known, ◌≡◌,
  refl, Bool-cases, inl, inr,
}
use carriers.SieveEngine.{Sieve, no_duplicates}
use carriers.SieveEngine.Answers.{ending, trace, run-answered}
use carriers.SieveEngine.Trace.{finish, summary, session_of}
use carriers.Policy.{
  Post, DomainScripts, env_list, env_list_id, run_script, run_tier, run_scripts, run_domain,
}
use carriers.Policy.Outcome.{PolicyOutcome, Accumulator, merge, is_terminal, outcome_from_run}
use carriers.Policy.Fold.{fold}

module _ (sieve : Sieve) (post : Post) where
  -- The result of one tier, which depends on the script and the post alone.
  unfoldable pub tier : Text → sieve.Script → Result PolicyOutcome
  tier name script =
      let env = (env_list, post.list_name) ∷ (env_list_id, post.list_id) ∷ post.extra_env in
      let s = session_of sieve name script post.raw post.mail_from env in
      and_then
        (finish (ending post.sets (λ _ _. false) name s)
          (summary (trace post.sets (λ _ _. false) s)))
        (λ r. ok (outcome_from_run r))

  pub run_tier-tier :
      {W : Type 0} (name : Text) (script : sieve.Script) (w : W)
      → run_tier sieve script name post w ≡ (tier name script, w)
  unfolding run_tier tier
  run_tier-tier name script w =
      let env = (env_list, post.list_name) ∷ (env_list_id, post.list_id) ∷ post.extra_env in
      >>=-known (run_script sieve script name post post.sets no_duplicates post.extra_env)
        (λ r. pure (outcome_from_run r)) (λ r. ok (outcome_from_run r)) _ w
        (run-answered sieve name script post.raw post.mail_from env post.sets (λ _ _. false) w)
        (λ r. refl)

  abbrev pub results : Text → List sieve.Script → List (Result PolicyOutcome)
  results name scripts = map (λ script. tier name script) scripts

  pub run_scripts-fold :
      {W : Type 0} (scripts : List sieve.Script) (name : Text) (acc : Accumulator) (w : W)
      → run_scripts sieve scripts name post acc w ≡ (fold (results name scripts) acc, w)
  unfolding run_scripts fold
  run_scripts-fold [] name acc w = refl
  run_scripts-fold (script ∷ scripts) name acc w = elim (Bool-cases (is_terminal acc.decision)) [
    | inl h ↦ rw h
    | inr h ↦ rw h (
        >>=-known (run_tier sieve script name post)
          (λ out. run_scripts sieve scripts name post (merge acc out))
          (λ out. fold (results name scripts) (merge acc out)) (tier name script) w
          (run_tier-tier name script w) (λ out. run_scripts-fold scripts name (merge acc out) w))
  ]

  -- The scripts of a domain's entry, if it has one.
  abbrev pub domain_scripts :
      (DomainScripts sieve → List sieve.Script) → Option (DomainScripts sieve) → List sieve.Script
  domain_scripts select none = []
  domain_scripts select (some d) = select d

  pub run_domain-fold :
      {W : Type 0} (select : DomainScripts sieve → List sieve.Script) (name : Text)
      (d : Option (DomainScripts sieve)) (acc : Accumulator) (w : W)
      → run_domain sieve select name d post acc w
        ≡ (fold (results name (domain_scripts select d)) acc, w)
  unfolding run_domain
  run_domain-fold select name none acc w = unfold fold in refl
  run_domain-fold select name (some d) acc w = run_scripts-fold (select d) name acc w
