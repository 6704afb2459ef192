-- ===== src/Policy/Tests.antt =====
-- The theorems on the policy chain and on a run of a script, at a runtime whose scripts are trees of
-- events.
use carriers.Base.{
  Text, true, false, List, [], ◌∷◌, codes, ok, inl, any, ◌==◌, text_eq, if◌then◌else◌, ◌≡◌,
}
use carriers.SieveEngine.{
  Sieve, Session, DuplicateStore, finished, reports, duplicate_id, file_into, reject, run,
}
use carriers.SieveEngine.Trace.{ended, summary, trail, session_of, run_lem}
use carriers.Policy.{Post, PolicyEngine, no_lists}
use carriers.Policy.Outcome.{PolicyDecision, PolicyOutcome, approve, moderate, is_terminal}
use carriers.Policy.Outcome

-- A script is what it does, whatever the message is.
abbrev pub trees : Sieve
trees = record {
  Script = Session;
  Instance = Unit;
  compile = λ source. inl finished;
  filter = λ raw. tt;
  set_envelope_from = λ from i. i;
  set_env_variable = λ key value i. i;
  start = λ name script i. script;
}

abbrev pub keeps : Session
keeps = finished

abbrev pub holds_post : Session
holds_post = reports (file_into (codes "Moderate")) (λ _. finished)

abbrev pub rejects : Session
rejects = reports (file_into (codes "archive")) (λ _. reports (reject (codes "no")) (λ _. finished))

abbrev pub engine_with : Session → List Session → PolicyEngine trees
engine_with gate global = record {
  loop_check = keeps;
  duplicate_check = keeps;
  list_headers = keeps;
  dmarc_before_gate = gate;
  dmarc_after_gate = keeps;
  munge_from_script = keeps;
  subject_prefix_script = keeps;
  policies = (codes "open", keeps) ∷ [];
  global_before = global;
  global_after = holds_post ∷ [];
  domains = [];
}

abbrev a_post : Post
a_post = record {
  list_name = codes "dev";
  list_id = codes "dev.lists.example";
  mail_from = codes "ann@a.example";
  raw = codes "Subject: x\r\n\r\n";
  sets = no_lists;
  extra_env = [];
}

abbrev domain : Text
domain = codes "lists.example"

-- Outcomes without a flag.
abbrev plain : PolicyDecision → PolicyOutcome
plain d = record { decision = d; archive = false; no_own_dkim = false; munge_from = false }

abbrev two_plain : List PolicyOutcome
two_plain = plain approve ∷ plain approve ∷ []

abbrev then_held : List PolicyOutcome
then_held = plain approve ∷ plain moderate ∷ []

abbrev refused : PolicyOutcome
refused = record {
  decision = Outcome.reject (codes "no");
  archive = true;
  no_own_dkim = false;
  munge_from = false;
}

-- A store that keeps the ids it was asked for, and a script that asks for an id before it rejects.
abbrev remembering : DuplicateStore (List Text)
remembering id expiry w = (ok (any (λ old. old == id) w), id ∷ w)

abbrev asks_first : Session
asks_first = reports (duplicate_id (codes "m@a") 60) (λ seen. if seen then finished else rejects)

run_lem_example :
    run trees (codes "s") asks_first [] [] [] no_lists remembering []
    ≡ ended summary (
        trail
          (codes "s")
          no_lists
          remembering
          (session_of trees (codes "s") asks_first [] [] [])
          [])
run_lem_example = run_lem trees (codes "s") asks_first [] [] [] no_lists remembering []
