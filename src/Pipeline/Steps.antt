-- ===== src/Pipeline/Steps.antt =====
-- `crates/carriers-core/src/pipeline.rs`: `intake`, `finalize` and their steps. The tables, the time
-- and the archive are the world; a query that fails and an archive that cannot be written are not
-- modelled. The parsers of the crates and the engine's scripts are parameters.
use mathlib.Core.Option
use carriers.Base.{
  ℕ, Text, Bytes, Bool, true, false, not, Option, none, some, List, [], ◌∷◌, ◌++◌, map, keep, codes,
  Action, Result, ok, err, unparseable, pure, throw, lift, ◌>>=◌, if◌then◌else◌, to_ascii_lowercase,
  lower, split_once,
}
use carriers.MailingList.{MailingList, list_id}
use carriers.Pipeline.{Ingress, Disposition, distribute, held, discarded, rejected}
use carriers.Policy.{
  MembershipSets, contains, Post, PolicyEngine, no_lists, check_loop, check_duplicate,
  evaluate_before, evaluate_after, apply_list_headers, apply_munge_from, apply_subject_prefix,
}
use carriers.Policy.Outcome.{PolicyDecision, PolicyOutcome, approve, moderate, discard, reject}
use carriers.SieveEngine.{Sieve, DuplicateStore}
use carriers.Sign.{
  MailAuth, AuthVerdict, evaluate_dmarc, env_pairs, sign_and_seal, should_sign_dkim2,
}
use carriers.Store.{Db, all_members, subscribers, record_message, enqueue_held}
use carriers.Transform.{FromAddress, munge_from_env, subject_prefix_env, list_header_env}

-- What the mail parser gives of a message.
pub record Mail : Type 0 where
  pub from : Option FromAddress
  pub subject : Option Text

pub record World (F : Type 0) : Type 0 where
  pub db : Db F
  pub now : ℕ
  pub archived : List (Text × Bytes)

-- What is fixed while the daemon runs. The archive is there or not.
pub record Platform (Key : Type 0) : Type 1 where
  pub sieve : Sieve
  pub engine : PolicyEngine sieve
  pub mail_auth : MailAuth Key
  pub parse : Bytes → Option Mail
  pub hostname : Text
  pub has_archive : Bool

-- `from_address`
unfoldable pub from_address : Mail → Option Text
unfolding lower
from_address mail = elim mail.from [
  | none ↦ none
  | some a ↦ Option.map to_ascii_lowercase a.address
]

-- `posting_address.split('@').next()`
unfoldable pub return_path_local : {Key : Type 0} → MailingList Key → Text
unfolding split_once
return_path_local list = elim (split_once b'@' list.cfg.posting_address) [
  | none ↦ list.cfg.posting_address
  | some (a, _) ↦ a
]

module _ {F : Type 0} where
  unfoldable pub membership_sets : Text → World F → MembershipSets
  unfolding all_members
  membership_sets list_name w =
      let members = all_members list_name w.db in
      record {
        subscribers = map (λ m. m.address) (keep (λ m. m.subscribed) members);
        posters = map (λ m. m.address) (keep (λ m. m.poster) members);
        moderators = map (λ m. m.address) (keep (λ m. m.moderator) members);
      }

  -- `StoreDuplicates::seen_before`
  unfoldable pub store_duplicates : Text → DuplicateStore (World F)
  unfolding record_message
  store_duplicates list_name id expiry w =
      let (new, db) = record_message list_name id w.now w.db in (ok (not new), record w { db = db })

  unfoldable pub hold_result : World F → Result ℕ × Db F → Result Disposition × World F
  hold_result w (ok id, db) = (ok (held id), record w { db = db })
  hold_result w (err e, db) = (err e, record w { db = db })

  unfoldable pub hold :
      Text → Ingress → Option Text → Option Text → Bytes → Action (World F) Disposition
  unfolding hold_result enqueue_held
  hold list_name ingress sender subject raw w = hold_result w (
      enqueue_held list_name ingress.mail_from ingress.helo ingress.remote_ip sender subject raw
        w.now w.db)

  -- `archive_message`, if the outcome asks for it.
  unfoldable pub archive_if : Bool → Bool → Text → Bytes → Action (World F) (Unit {0})
  archive_if true true list_name raw w =
      (ok tt, record w { archived = w.archived ++ (list_name, raw) ∷ [] })
  archive_if _ _ list_name raw w = (ok tt, w)

module _ {Key : Type 0} (list : MailingList Key) (ingress : Ingress) where
  abbrev pub post_with : Bytes → MembershipSets → AuthVerdict → Post
  unfolding contains env_pairs
  post_with raw sets verdict = record {
    list_name = list.name;
    list_id = list_id list;
    mail_from = ingress.mail_from;
    raw = raw;
    sets = contains sets;
    extra_env = env_pairs verdict;
  }

  -- The post as the loop check and the duplicate check see it.
  abbrev pub bare_post : Bytes → Post
  bare_post raw = record {
    list_name = list.name;
    list_id = list_id list;
    mail_from = ingress.mail_from;
    raw = raw;
    sets = no_lists;
    extra_env = [];
  }

module _ {F Key : Type 0} (platform : Platform Key) (list : MailingList Key)
    (ingress : Ingress) where
  -- The bytes after the munging of `From`, which an outcome may ask for.
  unfoldable pub munged : Bool → Bytes → Action (World F) Bytes
  unfolding apply_munge_from munge_from_env
  munged true raw =
      apply_munge_from platform.sieve platform.engine list.name (list_id list)
        (munge_from_env list (from_of (platform.parse raw))) raw
    where
      from_of : Option Mail → Option FromAddress
      from_of none = none
      from_of (some mail) = mail.from
  munged false raw = pure raw

  -- The bytes after the prefix of the subject, for a list that has one.
  unfoldable pub prefixed : Option (List (Text × Text)) → Bytes → Action (World F) Bytes
  unfolding apply_subject_prefix
  prefixed (some env) raw =
      apply_subject_prefix platform.sieve platform.engine list.name (list_id list) env raw
  prefixed none raw = pure raw

  -- The branch of `finalize` for a post that is approved.
  unfoldable pub prepare : AuthVerdict → PolicyOutcome → Bytes → Action (World F) Disposition
  unfolding munged prefixed apply_list_headers sign_and_seal subscribers return_path_local
      subject_prefix_env list_header_env should_sign_dkim2
  prepare verdict outcome raw = do
    recipients ← λ w. (ok (subscribers list.name w.db), w)
    a ← munged outcome.munge_from raw
    b ← prefixed (subject_prefix_env list) a
    augmented ←
        apply_list_headers platform.sieve platform.engine list.name (list_id list)
          (list_header_env list) b
    message ← lift (
        sign_and_seal platform.mail_auth list platform.hostname raw augmented ingress
          outcome.no_own_dkim)
    pure (
        distribute (record {
          message = message;
          recipients = recipients;
          return_path_local = return_path_local list;
          list_domain = list.domain;
          dkim2_original = if should_sign_dkim2 verdict outcome.no_own_dkim then some raw else none;
        }))

  -- The parsed sender and subject of a post that is held, if it can be parsed.
  unfoldable pub hold_parsed : Option Mail → Bytes → Action (World F) Disposition
  unfolding hold from_address
  hold_parsed none raw = hold list.name ingress none none raw
  hold_parsed (some mail) raw = hold list.name ingress (from_address mail) mail.subject raw

  unfoldable pub finalize_decided :
      AuthVerdict → PolicyOutcome → PolicyDecision → Bytes → Action (World F) Disposition
  unfolding prepare hold_parsed
  finalize_decided verdict outcome approve raw = prepare verdict outcome raw
  finalize_decided verdict outcome moderate raw = hold_parsed (platform.parse raw) raw
  finalize_decided verdict outcome discard raw =
      pure (discarded (codes "discarded by after-policy"))
  finalize_decided verdict outcome (reject reason) raw = pure (rejected reason)

  unfoldable pub finalize : Bytes → Action (World F) Disposition
  unfolding finalize_decided evaluate_dmarc evaluate_after membership_sets archive_if
  finalize raw = do
    sets ← λ w. (ok (membership_sets list.name w), w)
    verdict ← lift (evaluate_dmarc platform.mail_auth platform.hostname list ingress raw)
    outcome ←
        evaluate_after platform.sieve platform.engine list.domain
          (post_with list ingress raw sets verdict)
    _ ← archive_if outcome.archive platform.has_archive list.name raw
    finalize_decided verdict outcome outcome.decision raw

  unfoldable pub intake_decided : Mail → PolicyDecision → Bytes → Action (World F) Disposition
  unfolding finalize hold_parsed
  intake_decided mail approve raw = finalize raw
  intake_decided mail moderate raw = hold_parsed (some mail) raw
  intake_decided mail discard raw = pure (discarded (codes "discarded by policy"))
  intake_decided mail (reject reason) raw = pure (rejected reason)

  -- The rest of `intake`, once the post is neither a loop nor a duplicate.
  unfoldable pub moderate_post : Mail → Bytes → Action (World F) Disposition
  unfolding intake_decided evaluate_dmarc evaluate_before membership_sets archive_if
  moderate_post mail raw = do
    sets ← λ w. (ok (membership_sets list.name w), w)
    verdict ← lift (evaluate_dmarc platform.mail_auth platform.hostname list ingress raw)
    outcome ←
        evaluate_before platform.sieve platform.engine list.cfg.policy list.domain
          (post_with list ingress raw sets verdict)
    _ ← archive_if outcome.archive platform.has_archive list.name raw
    intake_decided mail outcome.decision raw

  unfoldable pub unless_duplicate : Mail → Bytes → Bool → Action (World F) Disposition
  unfolding moderate_post
  unless_duplicate mail raw true =
      pure (discarded (codes "duplicate message (Message-ID already seen)"))
  unless_duplicate mail raw false = moderate_post mail raw

  unfoldable pub unless_loop : Mail → Bytes → Bool → Action (World F) Disposition
  unfolding unless_duplicate check_duplicate store_duplicates
  unless_loop mail raw true = pure (discarded (codes "message already carries this List-Id (loop)"))
  unless_loop mail raw false = do
    seen ←
        check_duplicate platform.sieve platform.engine (bare_post list ingress raw)
          (store_duplicates list.name)
    unless_duplicate mail raw seen

  unfoldable pub intake_parsed : Option Mail → Bytes → Action (World F) Disposition
  unfolding unless_loop check_loop
  intake_parsed none raw = throw (unparseable (codes "failed to parse RFC 5322 message"))
  intake_parsed (some mail) raw = do
    looped ← check_loop platform.sieve platform.engine (bare_post list ingress raw)
    unless_loop mail raw looped

  unfoldable pub intake : Bytes → Action (World F) Disposition
  unfolding intake_parsed
  intake raw = intake_parsed (platform.parse raw) raw
