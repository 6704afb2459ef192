-- ===== src/SieveEngine/Answers.antt =====
-- A run of `crates/carriers-core/src/sieve_engine.rs` that is answered from a function and changes
-- nothing, as every run is but the one of the duplicate check.
use mathlib.Core.Option.{or_else}
use carriers.Base.{
  ℕ, Text, Bytes, Bool, true, false, Option, none, some, List, [], ◌∷◌, ◌++◌, any, codes, Error,
  auth, config, pure, arith, ◌≡◌, refl,
}
use carriers.SieveEngine.{
  Event, list_contains, duplicate_id, mailbox_exists, include_script, created_message, discard,
  reject, file_into, other, Session, finished, failed, reports, Sieve, Progress, start_progress,
  ExternalLists, loop, run,
}
use carriers.SieveEngine.Trace.{extend, extend-summed, finish, session_of, summary}

module _ (lists : ExternalLists) (seen : Text → ℕ → Bool) where
  abbrev pub answer : Event → Bool
  answer (list_contains names values) = any (λ list. any (λ value. lists list value) values) names
  answer (duplicate_id id expiry) = seen id expiry
  answer mailbox_exists = false
  answer (include_script optional) = false
  answer _ = true

  -- The events of a run that is answered so, up to its end or its first required include.
  abbrev pub trace : Session → List Event
  trace finished = []
  trace (failed e) = []
  trace (reports (include_script false) next) = []
  trace (reports ev next) = ev ∷ trace (next (answer ev))

  -- The error that ends the run, if one does.
  abbrev pub ending : Text → Session → Option Error
  ending name finished = none
  ending name (failed e) =
      some (auth (codes "Sieve script `" ++ name ++ codes "` runtime error: " ++ e))
  ending name (reports (include_script false) next) =
      some (config (codes "Sieve script `" ++ name ++ codes "` uses unsupported script includes"))
  ending name (reports ev next) = ending name (next (answer ev))

module _ {W : Type 0} (name : Text) (lists : ExternalLists) (seen : Text → ℕ → Bool) where
  loop-extend :
      (s : Session) (p : Progress) (w : W)
      → loop name lists (λ id expiry. pure (seen id expiry)) s p w
        ≡ (finish (ending lists seen name s) (extend p (trace lists seen s)), w)
  unfolding loop
  loop-extend finished p w = refl
  loop-extend (failed e) p w = refl
  loop-extend (reports (include_script false) next) p w = refl
  loop-extend (reports (include_script true) next) p w = loop-extend (next false) _ w
  loop-extend (reports (list_contains names values) next) p w = loop-extend (next _) _ w
  loop-extend (reports (duplicate_id id expiry) next) p w = loop-extend (next _) _ w
  loop-extend (reports mailbox_exists next) p w = loop-extend (next false) _ w
  loop-extend (reports (created_message b) next) p w = loop-extend (next true) _ w
  loop-extend (reports discard next) p w = loop-extend (next true) _ w
  loop-extend (reports (reject r) next) p w = loop-extend (next true) _ w
  loop-extend (reports (file_into f) next) p w = loop-extend (next true) _ w
  loop-extend (reports other next) p w = loop-extend (next true) _ w

module _ (sieve : Sieve) {W : Type 0} (name : Text) (script : sieve.Script) (raw : Bytes)
    (mail_from : Text) (env : List (Text × Text)) (lists : ExternalLists)
    (seen : Text → ℕ → Bool) where
  -- Such a run changes nothing.
  pub run-answered :
      (w : W)
      → (let s = session_of sieve name script raw mail_from env in
          run sieve name script raw mail_from env lists (λ id expiry. pure (seen id expiry)) w
          ≡ (finish (ending lists seen name s) (summary (trace lists seen s)), w))
  unfolding run or_else
  run-answered w =
      let s = session_of sieve name script raw mail_from env in
      ground (
        arith,
        loop-extend name lists seen s start_progress w,
        extend-summed start_progress (trace lists seen s),
      )
