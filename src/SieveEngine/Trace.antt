-- ===== src/SieveEngine/Trace.antt =====
-- `SieveEngine::run` against the events that the runtime reports: what the loop makes of them.
use mathlib.Core.Option.{or_else}
use mathlib.Core.List.{append_assoc, append-nil}
use carriers.Base.{
  ℕ, Text, Bytes, Bool, true, false, Option, none, some, List, [], ◌∷◌, ◌++◌, any, codes, Error,
  auth, config, pure, proceed, ap, arith, ◌≡◌, refl, Result, ok, err, is_empty, if◌then◌else◌, ◌∙◌,
}
use carriers.Base.Maybe.{unwrap_or}
use carriers.SieveEngine.{
  DuplicateStore, result, Event, list_contains, duplicate_id, mailbox_exists, include_script,
  created_message, discard, reject, file_into, other, Session, finished, failed, reports, Sieve,
  SieveOutcome, keep, discarded, rejected, SieveRun, Progress, start_progress, ExternalLists,
  get_or_insert, loop, run, set_env,
}

-- The events of a run up to its end, the error that ends it, if one does, and the state it leaves.
abbrev pub Trail : Type 0 → Type 0
Trail W = List Event × (Option Error × W)

abbrev pub after_event : {W : Type 0} → Event → Trail W → Trail W
after_event ev (es, end) = (ev ∷ es, end)

-- The answer of the duplicate store: the run goes on with it, or ends with the error of the store.
abbrev pub consult : {W : Type 0} → Event → (Bool → W → Trail W) → Result Bool × W → Trail W
consult ev rest (ok seen, w) = after_event ev (rest seen w)
consult ev rest (err e, w) = ([], (some e, w))

module _ {W : Type 0} (name : Text) (lists : ExternalLists) (duplicates : DuplicateStore W) where
  -- The trail of a run: what is asked of the lists is answered from them, what is asked of the
  -- duplicate store by the store, in its state at that event.
  abbrev pub trail : Session → W → Trail W
  trail finished w = ([], (none, w))
  trail (failed e) w =
      ([], (some (auth (codes "Sieve script `" ++ name ++ codes "` runtime error: " ++ e)), w))
  trail (reports (list_contains names values) next) w =
      after_event (list_contains names values)
        (trail (next (any (λ list. any (λ value. lists list value) values) names)) w)
  trail (reports (duplicate_id id expiry) next) w =
      consult (duplicate_id id expiry) (λ seen w'. trail (next seen) w') (duplicates id expiry w)
  trail (reports mailbox_exists next) w = after_event mailbox_exists (trail (next false) w)
  trail (reports (include_script true) next) w =
      after_event (include_script true) (trail (next false) w)
  trail (reports (include_script false) next) w = (
    [],
    (
      some (config (codes "Sieve script `" ++ name ++ codes "` uses unsupported script includes")),
      w,
    ),
  )
  trail (reports ev next) w = after_event ev (trail (next true) w)

-- The first `discard` or `reject`.
abbrev pub first_action : List Event → Option SieveOutcome
first_action [] = none
first_action (discard ∷ es) = some discarded
first_action (reject reason ∷ es) = some (rejected reason)
first_action (_ ∷ es) = first_action es

-- The message that was created last.
abbrev pub last_message : List Event → Option Bytes
last_message [] = none
last_message (created_message bytes ∷ es) = some (unwrap_or (last_message es) bytes)
last_message (_ ∷ es) = last_message es

-- Every folder that was filed into, in order.
abbrev pub folders : List Event → List Text
folders [] = []
folders (file_into folder ∷ es) = folder ∷ folders es
folders (_ ∷ es) = folders es

abbrev pub summary : List Event → SieveRun
summary es = record {
  outcome = unwrap_or (first_action es) keep;
  message = last_message es;
  filed_into = folders es;
}

abbrev pub finish {ℓ} : {A : Type ℓ} → Option Error → A → Result A
finish none a = ok a
finish (some e) a = err e

abbrev pub extend : Progress → List Event → Progress
extend p [] = p
extend p (discard ∷ es) = extend (record p { outcome = get_or_insert p.outcome discarded }) es
extend p (reject r ∷ es) = extend (record p { outcome = get_or_insert p.outcome (rejected r) }) es
extend p (created_message b ∷ es) = extend (record p { message = some b }) es
extend p (file_into f ∷ es) = extend (record p { filed_into = p.filed_into ++ f ∷ [] }) es
extend p (_ ∷ es) = extend p es

abbrev pub summed : Progress → List Event → Progress
summed p es = record {
  outcome = or_else p.outcome (first_action es);
  message = or_else (last_message es) p.message;
  filed_into = p.filed_into ++ folders es;
}

pub extend-summed : (p : Progress) (es : List Event) → extend p es ≡ summed p es
unfolding or_else
extend-summed p [] = ground (arith, append-nil p.filed_into)
extend-summed p (discard ∷ es) =
    extend-summed (record p { outcome = get_or_insert p.outcome discarded }) es ∙ ground arith
extend-summed p (reject r ∷ es) =
    extend-summed (record p { outcome = get_or_insert p.outcome (rejected r) }) es ∙ ground arith
extend-summed p (created_message b ∷ es) =
    extend-summed (record p { message = some b }) es ∙ ground arith
extend-summed p (file_into f ∷ es) =
    extend-summed (record p { filed_into = p.filed_into ++ f ∷ [] }) es
    ∙ ground (arith, append_assoc p.filed_into (f ∷ []) (folders es))
extend-summed p (list_contains names values ∷ es) = extend-summed p es
extend-summed p (duplicate_id id expiry ∷ es) = extend-summed p es
extend-summed p (mailbox_exists ∷ es) = extend-summed p es
extend-summed p (include_script optional ∷ es) = extend-summed p es
extend-summed p (other ∷ es) = extend-summed p es

abbrev pub ended {ℓ} : {W : Type 0} {A : Type ℓ} → (List Event → A) → Trail W → Result A × W
ended made (es, (e, w)) = (finish e (made es), w)

module _ {W : Type 0} (name : Text) (lists : ExternalLists) (duplicates : DuplicateStore W) where
  -- The store is asked, and the run goes on as it goes on from the answer.
  loop-consult :
      (id : Text) (expiry : ℕ) (next : Bool → Session) (p : Progress)
      → ((seen : Bool) (w : W)
          → loop name lists duplicates (next seen) p w
            ≡ ended (extend p) (trail name lists duplicates (next seen) w))
      → (r : Result Bool × W)
      → proceed
          (λ (a : Bool × Progress). loop name lists duplicates (next a.0) a.1)
          (proceed (λ seen. pure (seen, p)) r)
        ≡ ended (extend p) (
            consult
              (duplicate_id id expiry)
              (λ seen w. trail name lists duplicates (next seen) w)
              r)
  loop-consult id expiry next p goes (ok seen, w) = goes seen w
  loop-consult id expiry next p goes (err e, w) = refl

  loop-extend :
      (s : Session) (p : Progress) (w : W)
      → loop name lists duplicates s p w ≡ ended (extend p) (trail name lists duplicates s w)
  unfolding loop
  loop-extend finished p w = refl
  loop-extend (failed e) p w = refl
  loop-extend (reports (include_script false) next) p w = refl
  loop-extend (reports (include_script true) next) p w = loop-extend (next false) _ w
  loop-extend (reports (list_contains names values) next) p w = loop-extend (next _) _ w
  loop-extend (reports (duplicate_id id expiry) next) p w =
      loop-consult id expiry next p (λ seen w'. loop-extend (next seen) p w')
        (duplicates id expiry w)
  loop-extend (reports mailbox_exists next) p w = loop-extend (next false) _ w
  loop-extend (reports (created_message b) next) p w = loop-extend (next true) _ w
  loop-extend (reports discard next) p w = loop-extend (next true) _ w
  loop-extend (reports (reject r) next) p w = loop-extend (next true) _ w
  loop-extend (reports (file_into f) next) p w = loop-extend (next true) _ w
  loop-extend (reports other next) p w = loop-extend (next true) _ w

-- The session that `run` starts.
abbrev pub session_of :
    (sieve : Sieve) → Text → sieve.Script → Bytes → Text → List (Text × Text) → Session
session_of sieve name script raw mail_from env =
    let instance_ = sieve.filter raw in
    let addressed =
      if is_empty mail_from then instance_ else sieve.set_envelope_from mail_from instance_ in
    sieve.start name script (set_env sieve env addressed)

module _ (sieve : Sieve) {W : Type 0} (name : Text) (script : sieve.Script) (raw : Bytes)
    (mail_from : Text) (env : List (Text × Text)) (lists : ExternalLists)
    (duplicates : DuplicateStore W) where
  -- A run of a script, whatever the duplicate store does with its state, leaves the state that the
  -- store's answers to the events left. It ends with the error of the runtime, of a required include
  -- or of the store, if the events come to one. Otherwise the outcome is the first `discard` or
  -- `reject` reported, or a keep, the message is the one created last, and the folders are all those
  -- filed into, in order.
  pub run_lem :
      (w : W)
      → run sieve name script raw mail_from env lists duplicates w
        ≡ ended summary
            (trail name lists duplicates (session_of sieve name script raw mail_from env) w)
  unfolding run or_else
  run_lem w =
      let s = session_of sieve name script raw mail_from env in
      ap (proceed (λ p. pure (result p))) (loop-extend name lists duplicates s start_progress w)
      ∙ summarised (trail name lists duplicates s w)
    where
      summarised :
          (t : Trail W)
          → proceed (λ p. pure (result p)) (ended (extend start_progress) t) ≡ ended summary t
      summarised (es, (none, w)) = ground (arith, extend-summed start_progress es)
      summarised (es, (some e, w)) = refl
