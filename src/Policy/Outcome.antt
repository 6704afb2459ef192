-- ===== src/Policy/Outcome.antt =====
-- `crates/carriers-core/src/policy.rs`: decisions, the pseudo-mailboxes of `fileinto`, and how the
-- outcomes of scripts are folded together.
use carriers.Base.{
  Text, Bool, true, false, ◌||◌, List, [], ◌∷◌, any, codes, eq_ignore_ascii_case, text_beq, lower,
  if◌then◌else◌,
}
use carriers.SieveEngine.{SieveRun, SieveOutcome, keep, discarded, rejected}

pub data PolicyDecision : Type 0 where
  approve : PolicyDecision
  moderate : PolicyDecision
  discard : PolicyDecision
  reject : Text → PolicyDecision

pub record PolicyOutcome : Type 0 where
  pub decision : PolicyDecision
  pub archive : Bool
  pub no_own_dkim : Bool
  pub munge_from : Bool

abbrev pub moderate_folders : List Text
moderate_folders = codes "moderate" ∷ codes "moderation" ∷ codes "hold" ∷ []

abbrev pub archive_folder : Text
archive_folder = codes "archive"

abbrev pub no_dkim_folder : Text
no_dkim_folder = codes "no-dkim"

abbrev pub munge_from_folder : Text
munge_from_folder = codes "munge-from"

unfoldable pub is_moderate_folder : Text → Bool
unfolding eq_ignore_ascii_case text_beq lower
is_moderate_folder folder = any (λ m. eq_ignore_ascii_case folder m) moderate_folders

unfoldable pub is_archive_folder : Text → Bool
unfolding eq_ignore_ascii_case text_beq lower
is_archive_folder folder = eq_ignore_ascii_case folder archive_folder

unfoldable pub is_no_dkim_folder : Text → Bool
unfolding eq_ignore_ascii_case text_beq lower
is_no_dkim_folder folder = eq_ignore_ascii_case folder no_dkim_folder

unfoldable pub is_munge_from_folder : Text → Bool
unfolding eq_ignore_ascii_case text_beq lower
is_munge_from_folder folder = eq_ignore_ascii_case folder munge_from_folder

-- The decision of a run; a `keep` is a hold if a moderation folder was named.
decision_of : SieveOutcome → List Text → PolicyDecision
decision_of discarded folders = discard
decision_of (rejected reason) folders = reject reason
decision_of keep folders = if any is_moderate_folder folders then moderate else approve

unfoldable pub outcome_from_run : SieveRun → PolicyOutcome
unfolding decision_of
outcome_from_run run = record {
  decision = decision_of run.outcome run.filed_into;
  archive = any is_archive_folder run.filed_into;
  no_own_dkim = any is_no_dkim_folder run.filed_into;
  munge_from = any is_munge_from_folder run.filed_into;
}

pub record Accumulator : Type 0 where
  pub decision : PolicyDecision
  pub archive : Bool
  pub no_own_dkim : Bool
  pub munge_from : Bool

abbrev pub default_accumulator : Accumulator
default_accumulator = record {
  decision = approve;
  archive = false;
  no_own_dkim = false;
  munge_from = false;
}

-- The function `merge`: an implicit keep carries the decision so far through.
unfoldable pub merge_decision : PolicyDecision → PolicyDecision → PolicyDecision
merge_decision so_far approve = so_far
merge_decision so_far moderate = moderate
merge_decision so_far discard = discard
merge_decision so_far (reject reason) = reject reason

-- `Accumulator::merge`
unfoldable pub merge : Accumulator → PolicyOutcome → Accumulator
unfolding merge_decision
merge acc out = record {
  decision = merge_decision acc.decision out.decision;
  archive = acc.archive || out.archive;
  no_own_dkim = acc.no_own_dkim || out.no_own_dkim;
  munge_from = acc.munge_from || out.munge_from;
}

unfoldable pub into_outcome : Accumulator → PolicyOutcome
into_outcome acc = record {
  decision = acc.decision;
  archive = acc.archive;
  no_own_dkim = acc.no_own_dkim;
  munge_from = acc.munge_from;
}

unfoldable pub is_terminal : PolicyDecision → Bool
is_terminal approve = false
is_terminal moderate = false
is_terminal discard = true
is_terminal (reject reason) = true
