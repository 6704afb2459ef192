-- ===== src/Pipeline/Retry.antt =====
-- A post that comes in again, `intake` in `crates/carriers-core/src/pipeline.rs`.
use carriers.Base.{
  ℕ, Text, Bytes, Bool, true, false, not, Option, some, [], ◌∷◌, ◌++◌, codes, Result, ok, err,
  Error, pure, lift, proceed, >>=-silent, inl, inr, if_taken, leb, text_eq, text_beq_iff, ◌≡◌, refl,
  sym, ap, ◌∙◌, Bool-cases,
}
use carriers.Base.{find}
use carriers.Base.Maybe.{is_some, unwrap_or}
use carriers.Store.Invariant.{seen}
use carriers.MailingList.{MailingList, list_id}
use carriers.Pipeline.{Ingress, Disposition, discarded}
use carriers.Pipeline.Queueing.{Queued, finalize-Queued, hold_parsed-Queued, archived-Queued}
use carriers.Pipeline.Steps.{
  World, Platform, Mail, membership_sets, store_duplicates, post_with, bare_post, intake_decided,
  moderate_post, unless_duplicate, unless_loop, intake_parsed, intake,
}
use carriers.Policy.{
  evaluate_before, check_loop, check_duplicate, env_list, env_list_id, no_lists, run_script,
  is_discard,
}
use carriers.Policy.Outcome.{PolicyDecision, approve, moderate, discard, reject}
use carriers.Policy.Silent.{evaluate_before-IsSilent}
use carriers.SieveEngine.{
  Session, Progress, ExternalLists, DuplicateStore, finished, failed, reports, duplicate_id, other,
  file_into, mailbox_exists, list_contains, include_script, created_message, run, loop, handle,
  start_progress,
}
use carriers.SieveEngine
use carriers.SieveEngine.Trace.{session_of}
use carriers.Sign.{evaluate_dmarc}
use carriers.Store.{Db, record_message, enqueue_held, max_id}
use carriers.Store.Queue.{has_seen, record_message_lem}

enqueue_held-seen :
    {F : Type 0} (l f helo ip : Text) (s j : Option Text) (raw : Bytes) (now : ℕ) (d : Db F)
    (out : Result ℕ × Db F)
    → enqueue_held l f helo ip s j raw now d ≡ out
    → out.1.seen_messages ≡ d.seen_messages
unfolding enqueue_held
enqueue_held-seen l f helo ip s j raw now d out h =
    elim (if_taken (leb max_id d.last_id) _ _ out h) [
      | inl (_, k) ↦ ap (λ r. r.1.seen_messages) (sym k)
      | inr (_, k) ↦ ap (λ r. r.1.seen_messages) (sym k)
    ]

-- The rest of a run that decides nothing more: it comes to its end, and each event on the way is one
-- that asks for nothing and neither discards, rejects nor changes the message. The `Keep` that the
-- runtime reports for a message that was not discarded is such an event.
abbrev pub IsQuiet : Session → Type 0
IsQuiet finished = Unit
IsQuiet (reports other next) = IsQuiet (next true)
IsQuiet (reports (file_into folder) next) = IsQuiet (next true)
IsQuiet _ = ⊥

-- What `duplicate.sieve` does with a message that has an id: it asks whether the id was seen, and
-- discards the message if so.
abbrev pub Asks : Text → ℕ → Session → Type 0
Asks id expiry session =
    (next : Bool → Session) × ((session ≡ reports (duplicate_id id expiry) next)
      × (IsQuiet (next false)
          × ((last : Bool → Session) × ((next true ≡ reports SieveEngine.discard last)
                × IsQuiet (last true)))))

quiet_loop :
    {W : Type 0} (name : Text) (lists : ExternalLists) (duplicates : DuplicateStore W) (s : Session)
    (p : Progress) (w : W)
    → IsQuiet s
    → (q : Progress) × ((loop name lists duplicates s p w ≡ (ok q, w)) × (q.outcome ≡ p.outcome))
unfolding loop handle
quiet_loop name lists duplicates finished p w u = (p, (refl, refl))
quiet_loop name lists duplicates (failed e) p w u = absurd u
quiet_loop name lists duplicates (reports other next) p w u =
    quiet_loop name lists duplicates (next true) p w u
quiet_loop name lists duplicates (reports (file_into folder) next) p w u =
    let (q, (e, o)) =
      quiet_loop name lists duplicates (next true)
        (record p { filed_into = p.filed_into ++ folder ∷ [] }) w u in
    (q, (e, o))
quiet_loop name lists duplicates (reports (list_contains a b) next) p w u = absurd u
quiet_loop name lists duplicates (reports (duplicate_id a b) next) p w u = absurd u
quiet_loop name lists duplicates (reports mailbox_exists next) p w u = absurd u
quiet_loop name lists duplicates (reports (include_script a) next) p w u = absurd u
quiet_loop name lists duplicates (reports (created_message a) next) p w u = absurd u
quiet_loop name lists duplicates (reports SieveEngine.discard next) p w u = absurd u
quiet_loop name lists duplicates (reports (SieveEngine.reject a) next) p w u = absurd u

module _ {F Key : Type 0} (platform : Platform Key) (list : MailingList Key) (ingress : Ingress)
    (raw : Bytes) where
  intake_decided-Queued :
      (mail : Mail) (decision : PolicyDecision) (w : World F)
      → Queued list ingress raw w (intake_decided platform list ingress mail decision raw w)
  unfolding intake_decided
  intake_decided-Queued mail approve w = finalize-Queued list ingress raw platform w
  intake_decided-Queued mail moderate w = hold_parsed-Queued list ingress raw platform (some mail) w
  intake_decided-Queued mail discard w = inl (refl, λ id k. cc)
  intake_decided-Queued mail (reject reason) w = inl (refl, λ id k. cc)

  moderate_post-Queued :
      (mail : Mail) (w : World F)
      → Queued list ingress raw w (moderate_post platform list ingress mail raw w)
  unfolding moderate_post
  moderate_post-Queued mail w =
      let failed : (e : Error) → Queued list ingress raw w (err e, w) =
        λ e. inl (refl, λ id k. cc) in
      >>=-silent (Queued list ingress raw w)
        (lift (evaluate_dmarc platform.mail_auth platform.hostname list ingress raw)) _ w
        (λ v. refl) failed
        λ verdict.
          let post = post_with list ingress raw (membership_sets list.name w) verdict in
          >>=-silent (Queued list ingress raw w)
            (evaluate_before platform.sieve platform.engine list.cfg.policy list.domain post) _ w
            (evaluate_before-IsSilent platform.sieve platform.engine list.cfg.policy list.domain
              post)
            failed
            λ outcome.
              archived-Queued list ingress raw platform outcome.archive platform.has_archive
                (intake_decided platform list ingress mail outcome.decision raw) w
                (intake_decided-Queued mail outcome.decision)

  Queued-seen :
      (w : World F) (out : Result Disposition × World F)
      → Queued list ingress raw w out
      → out.1.db.seen_messages ≡ w.db.seen_messages
  Queued-seen w out (inl (e, _)) = ap (λ d. d.seen_messages) e
  Queued-seen w out (inr (id, (_, (sender, subject, e)))) =
      enqueue_held-seen list.name ingress.mail_from ingress.helo ingress.remote_ip sender subject
        raw w.now w.db (ok id, out.1.db) e

  module _ (id : Text) (expiry : ℕ)
      (asks : Asks id expiry (
        session_of platform.sieve
          (codes "duplicate")
          platform.engine.duplicate_check
          raw
          ingress.mail_from
          ((env_list, list.name) ∷ (env_list_id, list_id list) ∷ []))) where
    -- The duplicate check answers whether the id was recorded, and records it.
    check_duplicate-recorded :
        (w : World F)
        → check_duplicate platform.sieve platform.engine
            (bare_post list ingress raw)
            (store_duplicates list.name)
            w
          ≡ (
            ok (not (record_message list.name id w.now w.db).0),
            record w { db = (record_message list.name id w.now w.db).1 },
          )
    unfolding check_duplicate run_script run loop handle store_duplicates
    check_duplicate-recorded w =
        let (next, (session, (unseen, (last, (discards, seen))))) = asks in
        let d = record_message list.name id w.now w.db in
        let w' : World F = record w { db = d.1 } in
        let goes = λ (s : Session) (w : World F).
          proceed (λ r. pure (is_discard r.outcome))
            (proceed (λ p. pure (SieveEngine.result p))
              (loop (codes "duplicate") no_lists (store_duplicates list.name) s start_progress
                w)) in
        let (p, (e, o)) =
          quiet_loop (codes "duplicate") no_lists (store_duplicates list.name) (next false)
            start_progress w' unseen in
        let (q, (f, o')) =
          quiet_loop (codes "duplicate") no_lists (store_duplicates list.name) (last true)
            (record start_progress { outcome = some SieveEngine.discarded }) w' seen in
        ap (λ s. goes s w) session ∙ elim (Bool-cases d.0) [
          | inl h ↦ rw h (
              ap (proceed (λ r. pure (is_discard r.outcome)))
                (ap (proceed (λ p. pure (SieveEngine.result p))) e)
              ∙ ap (λ r. (ok (is_discard (unwrap_or r SieveEngine.keep)), w')) o)
          | inr h ↦ rw h (
              ap (λ s. goes s w') discards
              ∙ ap (proceed (λ r. pure (is_discard r.outcome)))
                  (ap (proceed (λ p. pure (SieveEngine.result p))) f)
              ∙ ap (λ r. (ok (is_discard (unwrap_or r SieveEngine.keep)), w')) o')
        ]

    -- The id stays recorded, whatever becomes of the post.
    unless_duplicate-seen :
        (mail : Mail) (seen : Bool) (w : World F)
        → (unless_duplicate platform list ingress mail raw seen w).1.db.seen_messages
          ≡ w.db.seen_messages
    unfolding unless_duplicate
    unless_duplicate-seen mail true w = refl
    unless_duplicate-seen mail false w =
        Queued-seen w (moderate_post platform list ingress mail raw w) (moderate_post-Queued mail w)

    module _ (mail : Mail) (parsed : platform.parse raw ≡ some mail)
        (no_loop : (w : World F)
          → check_loop platform.sieve platform.engine (bare_post list ingress raw) w
            ≡ (ok false, w)) where
      intake-checked :
          (w : World F)
          → intake platform list ingress raw w
            ≡ unless_duplicate platform list ingress mail raw
                (not (record_message list.name id w.now w.db).0)
                (record w { db = (record_message list.name id w.now w.db).1 })
      unfolding intake intake_parsed unless_loop
      intake-checked w = rw parsed (
          ap (proceed (unless_loop platform list ingress mail raw)) (no_loop w)
          ∙ ap (proceed (unless_duplicate platform list ingress mail raw))
              (check_duplicate-recorded w))

      -- A post that can be parsed, passes the loop check and has an id that the duplicate script asks for,
      -- to discard the message right after the answer if it was seen and to decide nothing more, is
      -- decided once: whatever the first intake of it returned, an error included, a second intake
      -- of it discards it as a duplicate.
      pub intake-twice :
          (w : World F)
          → (intake platform list ingress raw (intake platform list ingress raw w).1).0
            ≡ ok (discarded (codes "duplicate message (Message-ID already seen)"))
      unfolding unless_duplicate
      intake-twice w =
          let d = (record_message list.name id w.now w.db).1 in
          let w1 = (intake platform list ingress raw w).1 in
          let kept : w1.db.seen_messages ≡ d.seen_messages = rw (intake-checked w) (
            unless_duplicate-seen mail (not (record_message list.name id w.now w.db).0)
              (record w { db = d })) in
          let recorded : has_seen list.name id d ≡ true =
            (record_message_lem list.name id list.name id w.now w.db).1
            ∙ rw ((text_beq_iff list.name list.name).1 refl, (text_beq_iff id id).1 refl) refl in
          let known : (record_message list.name id w1.now w1.db).0 ≡ false =
            (record_message_lem list.name id list.name id w1.now w1.db).0
            ∙ ap not (ap (λ rows. is_some (find (seen list.name id) rows)) kept ∙ recorded) in
          rw (intake-checked w1, known) refl
