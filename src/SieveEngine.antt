-- ===== src/SieveEngine.antt =====
-- `crates/carriers-core/src/sieve_engine.rs`. The `sieve` crate is a parameter. A run of a script
-- is the tree of its events: after each event it waits for the answer `true` or `false`. The tree
-- is well founded, since the crate bounds the instructions of a run.
pub mod Trace
pub mod Answers
use carriers.Base.{
  ℕ, Text, Bytes, Bool, true, false, Option, none, some, List, [], ◌∷◌, ◌++◌, any, codes, Action,
  Error, auth, config, pure, throw, ◌>>=◌, if◌then◌else◌, is_empty, ◌⊎◌, inl, inr, Result, ok, err,
}
use carriers.Base.Maybe.{unwrap_or}

pub data Event : Type 0 where
  list_contains : List Text → List Text → Event
  duplicate_id : Text → ℕ → Event
  mailbox_exists : Event
  include_script : Bool → Event
  created_message : Bytes → Event
  discard : Event
  reject : Text → Event
  file_into : Text → Event
  other : Event

-- What the runtime still does: it is over, it fails, or it reports an event.
pub data Session : Type 0 where
  finished : Session
  failed : Text → Session
  reports : Event → (Bool → Session) → Session

-- The part of the `sieve` crate that the engine calls.
pub record Sieve : Type 1 where
  pub Script : Type 0
  pub Instance : Type 0
  pub compile : Bytes → Script ⊎ Text
  pub filter : Bytes → Instance
  pub set_envelope_from : Text → Instance → Instance
  pub set_env_variable : Text → Text → Instance → Instance
  pub start : Text → Script → Instance → Session

pub data SieveOutcome : Type 0 where
  keep : SieveOutcome
  discarded : SieveOutcome
  rejected : Text → SieveOutcome

pub record SieveRun : Type 0 where
  pub outcome : SieveOutcome
  pub message : Option Bytes
  pub filed_into : List Text

-- The three variables of the loop.
pub record Progress : Type 0 where
  pub outcome : Option SieveOutcome
  pub message : Option Bytes
  pub filed_into : List Text

abbrev pub start_progress : Progress
start_progress = record { outcome = none; message = none; filed_into = [] }

-- `ExternalLists::contains` and `DuplicateStore::seen_before`
abbrev pub ExternalLists : Type 0
ExternalLists = Text → Text → Bool

abbrev pub DuplicateStore : Type 0 → Type 0
DuplicateStore W = Text → ℕ → Action W Bool

abbrev pub no_duplicates : {W : Type 0} → DuplicateStore W
no_duplicates _ _ = pure false

-- `Option::get_or_insert`
abbrev pub get_or_insert : Option SieveOutcome → SieveOutcome → Option SieveOutcome
get_or_insert none o = some o
get_or_insert (some old) o = some old

module _ {W : Type 0} (name : Text) (lists : ExternalLists) (duplicates : DuplicateStore W) where
  -- One round of the loop: the answer to the event, and the variables after it.
  unfoldable pub handle : Event → Progress → Action W (Bool × Progress)
  handle (list_contains names values) p =
      pure (any (λ list. any (λ value. lists list value) values) names, p)
  handle (duplicate_id id expiry) p = do seen ← duplicates id expiry; pure (seen, p)
  handle mailbox_exists p = pure (false, p)
  handle (include_script true) p = pure (false, p)
  handle (include_script false) p =
      throw (config (codes "Sieve script `" ++ name ++ codes "` uses unsupported script includes"))
  handle (created_message bytes) p = pure (true, record p { message = some bytes })
  handle discard p = pure (true, record p { outcome = get_or_insert p.outcome discarded })
  handle (reject reason) p =
      pure (true, record p { outcome = get_or_insert p.outcome (rejected reason) })
  handle (file_into folder) p = pure (true, record p { filed_into = p.filed_into ++ folder ∷ [] })
  handle other p = pure (true, p)

  unfoldable pub loop : Session → Progress → Action W Progress
  unfolding handle
  loop finished p = pure p
  loop (failed e) p =
      throw (auth (codes "Sieve script `" ++ name ++ codes "` runtime error: " ++ e))
  loop (reports event next) p = do (answer, p') ← handle event p; loop (next answer) p'

abbrev pub result : Progress → SieveRun
result p = record {
  outcome = unwrap_or p.outcome keep;
  message = p.message;
  filed_into = p.filed_into;
}

module _ (sieve : Sieve) where
  open sieve use {Script, Instance, compile, filter, set_envelope_from, set_env_variable, start}

  -- `SieveEngine::compile`
  unfoldable pub compile_script : Bytes → Result Script
  compile_script source = elim (compile source) [
    | inl script ↦ ok script
    | inr e ↦ err (config (codes "compiling Sieve script: " ++ e))
  ]

  abbrev pub set_env : List (Text × Text) → Instance → Instance
  set_env [] i = i
  set_env ((key, value) ∷ env) i = set_env env (set_env_variable key value i)

  -- `SieveEngine::run`
  unfoldable pub run :
      {W : Type 0}
      → Text
      → Script
      → Bytes
      → Text
      → List (Text × Text)
      → ExternalLists
      → DuplicateStore W
      → Action W SieveRun
  unfolding loop
  run name script raw mail_from env lists duplicates = do
    let instance_ = filter raw
    let addressed = if is_empty mail_from then instance_ else set_envelope_from mail_from instance_
    p ← loop name lists duplicates (start name script (set_env env addressed)) start_progress
    pure (result p)
