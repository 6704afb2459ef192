-- ===== src/Pipeline/Tests.antt =====
-- The theorems on the pipeline at one list, one subscriber and one post.
use carriers.Base.{if◌then◌else◌, ok, ℕ, false, [], ◌∷◌, codes, ◌≡◌, refl}
use mathlib.Core.Option.{none, some}
use carriers.Pipeline.{Prepared, discarded}
use carriers.Pipeline.Retry.{intake-twice}
use carriers.Pipeline.Steps.{World, Platform, intake, finalize}
use carriers.Pipeline.Distribution.{IsApproved, finalize-IsApproved}
use carriers.Pipeline.Admission.{IsNew, IsAdmitted, intake-IsAdmitted}
use carriers.Policy.Tests.{trees, keeps}
use carriers.Policy.{PolicyEngine, check_loop, run_scripts, run_tier, evaluate}
use carriers.Policy.Outcome.{is_terminal, into_outcome, merge, outcome_from_run}
use carriers.SieveEngine
use carriers.SieveEngine.{Session, run, reports, duplicate_id, other, finished}
use carriers.Sign.Tests.{checks, signing_list, from_ann}
use carriers.Store.{subscribers}

abbrev one_member : World ℕ
one_member = record {
  db = record {
    members =
        record {
          list = codes "dev";
          address = codes "ann@a.example";
          subscribed = 1;
          poster = 1;
          moderator = 0;
          bounce_score = 0;
          bounce_disabled = 0;
          last_bounce_at = none;
        }
        ∷ [];
    seen_messages = [];
    moderation_queue = [];
    last_id = 0;
  };
  now = 7;
  archived = [];
}

-- Every script keeps the message.
abbrev quiet_engine : PolicyEngine trees
quiet_engine = record {
  loop_check = keeps;
  duplicate_check = keeps;
  list_headers = keeps;
  dmarc_before_gate = keeps;
  dmarc_after_gate = keeps;
  munge_from_script = keeps;
  subject_prefix_script = keeps;
  policies = (codes "open", keeps) ∷ [];
  global_before = [];
  global_after = [];
  domains = [];
}

abbrev here : Platform Unit
here = record {
  sieve = trees;
  engine = quiet_engine;
  mail_auth = checks;
  parse = λ raw. some (record { from = none; subject = none });
  hostname = codes "mx";
  has_archive = false;
}

abbrev ready : Prepared
ready = record {
  message = codes "ARC-Seal: x\r\nDKIM-Signature: x\r\nraw";
  recipients = codes "ann@a.example" ∷ [];
  return_path_local = codes "dev";
  list_domain = codes "l.example";
  dkim2_original = some (codes "raw");
}

finalize-IsApproved_example :
    IsApproved here signing_list from_ann (codes "raw") one_member
    × ((ready.recipients ≡ subscribers signing_list.name one_member.db)
        × (one_member.db ≡ one_member.db))
unfolding finalize run_scripts is_terminal run_tier run into_outcome merge outcome_from_run
finalize-IsApproved_example =
    finalize-IsApproved here signing_list from_ann (codes "raw") one_member ready one_member refl

intake-IsAdmitted_example :
    (w1 : World ℕ) × (IsNew here signing_list from_ann (codes "raw") one_member w1
      × (IsAdmitted here signing_list from_ann (codes "raw") w1
          × ((ready.recipients ≡ subscribers signing_list.name w1.db) × (one_member.db ≡ w1.db))))
unfolding intake run run_scripts is_terminal run_tier merge outcome_from_run evaluate into_outcome
intake-IsAdmitted_example =
    intake-IsAdmitted here signing_list from_ann (codes "raw") one_member ready one_member refl

-- With a duplicate check that asks for an id, and reports the keep of a message it did not see.
abbrev asks : Session
asks = reports (duplicate_id (codes "m@a") 604800) (λ seen.
    if seen then reports SieveEngine.discard (λ _. finished) else reports other (λ _. finished))

abbrev asking : Platform Unit
asking = record here { engine = record quiet_engine { duplicate_check = asks } }

intake-twice_example :
    (intake asking signing_list from_ann
      (codes "raw")
      (intake asking signing_list from_ann (codes "raw") one_member).1).0
    ≡ ok (discarded (codes "duplicate message (Message-ID already seen)"))
unfolding check_loop run
intake-twice_example =
    intake-twice asking signing_list from_ann (codes "raw") (codes "m@a") 604800
      (
        λ seen.
            if seen
            then reports SieveEngine.discard (λ _. finished)
            else reports other (λ _. finished),
        (refl, (tt, ((λ _. finished), (refl, tt)))),
      )
      (record { from = none; subject = none }) refl (λ w. refl) one_member
