-- ===== src/Policy.antt =====
-- `crates/carriers-core/src/policy.rs`: the registry of compiled scripts, and the chain of tiers
-- that decides about a post. What every tier is told of the post is one record, `Post`.
pub mod Outcome
pub mod Fold
pub mod Tiers
pub mod Silent
pub mod Chain
pub mod Load
pub mod Tests
use carriers.Base.{
  ℕ, Text, Bytes, Bool, true, false, ◌||◌, Option, none, some, List, [], ◌∷◌, ◌++◌, map, any, find,
  codes, Action, Error, config, pure, throw, lift, Result, ok, err, ◌>>=◌, ◌>>◌, if◌then◌else◌,
  ◌==◌, text_eq, to_ascii_lowercase, lower,
}
use carriers.Base.Maybe.{unwrap_or, is_some}
use carriers.SieveEngine.{
  Sieve, SieveRun, SieveOutcome, keep, discarded, rejected, ExternalLists, DuplicateStore,
  no_duplicates, run,
}
use Outcome.{
  PolicyDecision, approve, PolicyOutcome, Accumulator, default_accumulator, merge, into_outcome,
  is_terminal, outcome_from_run,
}

abbrev pub list_subscribers : Text
list_subscribers = codes "subscribers"

abbrev pub list_posters : Text
list_posters = codes "posters"

abbrev pub list_moderators : Text
list_moderators = codes "moderators"

abbrev pub env_list : Text
env_list = codes "vnd.carriers.list"

abbrev pub env_list_id : Text
env_list_id = codes "vnd.carriers.list_id"

-- The names of `BUILTIN_SCRIPTS`.
abbrev pub builtin_names : List Text
builtin_names = codes "open" ∷ codes "subscribers" ∷ codes "posters" ∷ codes "moderated" ∷ []

unfoldable pub is_builtin : Text → Bool
is_builtin name = any (λ n. n == name) builtin_names

-- Sets of addresses in lower case.
pub record MembershipSets : Type 0 where
  pub subscribers : List Text
  pub posters : List Text
  pub moderators : List Text

abbrev pub member_of : Text → List Text → Bool
member_of value xs = any (λ x. x == value) xs

-- `ExternalLists for MembershipSets`
unfoldable pub contains : MembershipSets → ExternalLists
unfolding lower
contains sets list value =
    let value' = to_ascii_lowercase value in
    if list == list_subscribers
    then member_of value' sets.subscribers
    else if list == list_posters
    then member_of value' sets.posters
    else if list == list_moderators
    then member_of value' sets.moderators
    else false

-- `NoLists`
abbrev pub no_lists : ExternalLists
no_lists _ _ = false

-- A `HashMap` by its entries, the latest first.
abbrev pub lookup {ℓ} : {V : Type ℓ} → Text → List (Text × V) → Option V
lookup k [] = none
lookup k ((j, v) ∷ m) = if j == k then some v else lookup k m

pub record Post : Type 0 where
  pub list_name : Text
  pub list_id : Text
  pub mail_from : Text
  pub raw : Bytes
  pub sets : ExternalLists
  pub extra_env : List (Text × Text)

-- `matches!(run.outcome, SieveOutcome::Discard)`
abbrev pub is_discard : SieveOutcome → Bool
is_discard discarded = true
is_discard _ = false

module _ (sieve : Sieve) where
  open sieve use {Script}

  pub record DomainScripts : Type 0 where
    pub before : List Script
    pub after : List Script

  pub record PolicyEngine : Type 0 where
    pub loop_check : Script
    pub duplicate_check : Script
    pub list_headers : Script
    pub dmarc_before_gate : Script
    pub dmarc_after_gate : Script
    pub munge_from_script : Script
    pub subject_prefix_script : Script
    pub policies : List (Text × Script)
    pub global_before : List Script
    pub global_after : List Script
    pub domains : List (Text × DomainScripts)

  module _ {W : Type 0} where
    unfoldable pub run_script :
        Script
        → Text
        → Post
        → ExternalLists
        → DuplicateStore W
        → List (Text × Text)
        → Action W SieveRun
    run_script script name post lists duplicates extra_env =
        run sieve name script post.raw post.mail_from
          ((env_list, post.list_name) ∷ (env_list_id, post.list_id) ∷ extra_env) lists duplicates

    unfoldable pub check_loop : PolicyEngine → Post → Action W Bool
    unfolding run_script
    check_loop engine post = do
      r ← run_script engine.loop_check (codes "loop") post no_lists no_duplicates []
      pure (is_discard r.outcome)

    unfoldable pub check_duplicate : PolicyEngine → Post → DuplicateStore W → Action W Bool
    unfolding run_script
    check_duplicate engine post duplicates = do
      r ← run_script engine.duplicate_check (codes "duplicate") post no_lists duplicates []
      pure (is_discard r.outcome)

    -- The three functions that rewrite headers: the message that the script made, or `raw`.
    unfoldable pub rewrite_by :
        Script → Text → Text → Text → List (Text × Text) → Bytes → Action W Bytes
    rewrite_by script name list_name list_id env raw = do
      r ←
          run sieve name script raw [] ((env_list, list_name) ∷ (env_list_id, list_id) ∷ env)
            no_lists no_duplicates
      pure (unwrap_or r.message raw)

    unfoldable pub apply_list_headers :
        PolicyEngine → Text → Text → List (Text × Text) → Bytes → Action W Bytes
    unfolding rewrite_by
    apply_list_headers engine = rewrite_by engine.list_headers (codes "list-headers")

    unfoldable pub apply_munge_from :
        PolicyEngine → Text → Text → List (Text × Text) → Bytes → Action W Bytes
    unfolding rewrite_by
    apply_munge_from engine = rewrite_by engine.munge_from_script (codes "munge-from")

    unfoldable pub apply_subject_prefix :
        PolicyEngine → Text → Text → List (Text × Text) → Bytes → Action W Bytes
    unfolding rewrite_by
    apply_subject_prefix engine = rewrite_by engine.subject_prefix_script (codes "subject-prefix")

    -- A policy tier never tracks duplicates.
    unfoldable pub run_tier : Script → Text → Post → Action W PolicyOutcome
    unfolding run_script
    run_tier script name post = do
      r ← run_script script name post post.sets no_duplicates post.extra_env
      pure (outcome_from_run r)

    unfoldable pub run_scripts : List Script → Text → Post → Accumulator → Action W Accumulator
    run_scripts [] tier_name post acc = pure acc
    run_scripts (script ∷ scripts) tier_name post acc =
        let rest = do
          out ← run_tier script tier_name post
          run_scripts scripts tier_name post (merge acc out)
        in if is_terminal acc.decision then pure acc else rest

    -- `ok_or_else` on the script that was looked up.
    pub run_named : Text → Post → Option Script → Action W PolicyOutcome
    run_named name post none = throw (config (codes "unknown policy `" ++ name ++ codes "`"))
    run_named name post (some script) = run_tier script name post

    unfoldable pub evaluate : PolicyEngine → Text → Post → Action W PolicyOutcome
    unfolding run_named
    evaluate engine name post = run_named name post (lookup name engine.policies)

    -- The drop-ins of a domain run if the domain has an entry.
    pub run_domain :
        (DomainScripts → List Script)
        → Text
        → Option DomainScripts
        → Post
        → Accumulator
        → Action W Accumulator
    run_domain select tier_name none post acc = pure acc
    run_domain select tier_name (some d) post acc = run_scripts (select d) tier_name post acc

    -- The list's own policy runs while the decision so far is still `Approve`.
    pub own_policy :
        PolicyEngine → Text → Post → Accumulator → PolicyDecision → Action W Accumulator
    own_policy engine name post acc approve = do
      out ← evaluate engine name post
      pure (merge acc out)
    own_policy engine name post acc _ = pure acc

    unfoldable pub evaluate_before : PolicyEngine → Text → Text → Post → Action W PolicyOutcome
    unfolding run_domain own_policy
    evaluate_before engine policy_name domain post = do
      let d = lookup domain engine.domains
      a ←
          run_scripts (engine.dmarc_before_gate ∷ []) (codes "dmarc-before") post
            default_accumulator
      b ← run_scripts engine.global_before (codes "global-before") post a
      c ← run_domain (λ s. s.before) (codes "domain-before") d post b
      e ← own_policy engine policy_name post c c.decision
      pure (into_outcome e)

    unfoldable pub evaluate_after : PolicyEngine → Text → Post → Action W PolicyOutcome
    unfolding run_domain
    evaluate_after engine domain post = do
      let d = lookup domain engine.domains
      a ← run_scripts (engine.dmarc_after_gate ∷ []) (codes "dmarc-after") post default_accumulator
      b ← run_domain (λ s. s.after) (codes "domain-after") d post a
      c ← run_scripts engine.global_after (codes "global-after") post b
      pure (into_outcome c)
