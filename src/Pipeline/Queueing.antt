-- ===== src/Pipeline/Queueing.antt =====
-- What `finalize` in `crates/carriers-core/src/pipeline.rs` does to the tables.
use carriers.Base.{
  ℕ, Text, Bytes, Bool, true, false, Option, none, some, List, [], ◌∷◌, ◌++◌, Action, Result, ok,
  err, Error, lift, ◌>>=◌, IsSilent, >>=-silent, ◌⊎◌, inl, inr, ◌≡◌, ◌≢◌, refl,
}
use carriers.MailingList.{MailingList, list_id}
use carriers.Pipeline.{Ingress, Disposition, held}
use carriers.Pipeline.Steps.{
  World, Platform, Mail, from_address, membership_sets, hold_result, hold, archive_if, munged,
  prefixed, prepare, hold_parsed, finalize_decided, finalize, post_with,
}
use carriers.Policy.Outcome.{PolicyDecision, PolicyOutcome, approve, moderate, discard, reject}
use carriers.Policy.{evaluate_after, apply_list_headers}
use carriers.Policy.Silent.{
  evaluate_after-IsSilent, apply_list_headers-IsSilent, apply_munge_from-IsSilent,
  apply_subject_prefix-IsSilent,
}
use carriers.Sign.{AuthVerdict, evaluate_dmarc, sign_and_seal}
use carriers.Store.Queue.{enqueue_held-err}
use carriers.Store.{Db, enqueue_held}
use carriers.Transform.{subject_prefix_env, list_header_env}

module _ {F Key : Type 0} (list : MailingList Key) (ingress : Ingress) (raw : Bytes) where
  -- The tables were left alone and the post is not held, or it was queued under the id that is given.
  abbrev pub Queued : World F → Result Disposition × World F → Type 0
  Queued w (r, w') =
      ((w'.db ≡ w.db) × ((id : ℕ) → r ≢ ok (held id)))
      ⊎ ((id : ℕ) × ((r ≡ ok (held id))
            × ((sender subject : Option Text) × (enqueue_held list.name ingress.mail_from
                    ingress.helo ingress.remote_ip sender subject raw w.now w.db
                  ≡ (ok id, w'.db)))))

  hold-Queued :
      (sender subject : Option Text) (w : World F)
      → Queued w (hold list.name ingress sender subject raw w)
  unfolding hold hold_result
  hold-Queued sender subject w =
      go
        (enqueue_held list.name ingress.mail_from ingress.helo ingress.remote_ip sender subject raw
          w.now w.db)
        refl
    where
      go :
          (r : Result ℕ × Db F)
          → enqueue_held list.name ingress.mail_from ingress.helo ingress.remote_ip sender subject
              raw w.now w.db
            ≡ r
          → Queued w (hold_result w r)
      go (ok id, db) e = inr (id, (refl, (sender, subject, e)))
      go (err x, db) e = inl (
        enqueue_held-err list.name ingress.mail_from ingress.helo ingress.remote_ip sender subject
            raw w.now w.db db x e,
        λ id k. cc,
      )

  module _ (platform : Platform Key) where
    pub hold_parsed-Queued :
        (mail : Option Mail) (w : World F) → Queued w (hold_parsed platform list ingress mail raw w)
    unfolding hold_parsed
    hold_parsed-Queued none w = hold-Queued none none w
    hold_parsed-Queued (some mail) w = hold-Queued (from_address mail) mail.subject w

    munged-IsSilent : (t : Bool) → IsSilent {W = World F} (munged platform list ingress t raw)
    unfolding munged
    munged-IsSilent true =
        apply_munge_from-IsSilent platform.sieve platform.engine list.name (list_id list) _ raw
    munged-IsSilent false = λ w. refl

    prefixed-IsSilent :
        (env : Option (List (Text × Text))) (a : Bytes)
        → IsSilent {W = World F} (prefixed platform list ingress env a)
    unfolding prefixed
    prefixed-IsSilent (some env) a =
        apply_subject_prefix-IsSilent platform.sieve platform.engine list.name (list_id list) env a
    prefixed-IsSilent none a = λ w. refl

    prepare-Queued :
        (verdict : AuthVerdict) (outcome : PolicyOutcome) (w : World F)
        → Queued w (prepare platform list ingress verdict outcome raw w)
    unfolding prepare
    prepare-Queued verdict outcome w =
        let failed : (e : Error) → Queued w (err e, w) = λ e. inl (refl, λ id k. cc) in
        >>=-silent (Queued w) (munged platform list ingress outcome.munge_from raw) _ w
          (munged-IsSilent outcome.munge_from) failed
          λ a.
            >>=-silent (Queued w) (prefixed platform list ingress (subject_prefix_env list) a) _ w
              (prefixed-IsSilent (subject_prefix_env list) a) failed
              λ b.
                >>=-silent (Queued w)
                  (apply_list_headers platform.sieve platform.engine list.name (list_id list)
                    (list_header_env list) b)
                  _ w
                  (apply_list_headers-IsSilent platform.sieve platform.engine list.name
                    (list_id list) (list_header_env list) b)
                  failed
                  λ c.
                    >>=-silent (Queued w)
                      (lift (
                        sign_and_seal platform.mail_auth list platform.hostname raw c ingress
                          outcome.no_own_dkim))
                      _ w (λ v. refl) failed (λ m. inl (refl, λ id k. cc))

    finalize_decided-Queued :
        (verdict : AuthVerdict) (outcome : PolicyOutcome) (decision : PolicyDecision) (w : World F)
        → Queued w (finalize_decided platform list ingress verdict outcome decision raw w)
    unfolding finalize_decided
    finalize_decided-Queued verdict outcome approve w = prepare-Queued verdict outcome w
    finalize_decided-Queued verdict outcome moderate w = hold_parsed-Queued (platform.parse raw) w
    finalize_decided-Queued verdict outcome discard w = inl (refl, λ id k. cc)
    finalize_decided-Queued verdict outcome (reject reason) w = inl (refl, λ id k. cc)

    pub archived-Queued :
        (a h : Bool) (f : Action (World F) Disposition) (w : World F)
        → ((v : World F) → Queued v (f v))
        → Queued w ((archive_if a h list.name raw >>= (λ _. f)) w)
    unfolding archive_if
    archived-Queued true true f w q =
        q (record w { archived = w.archived ++ (list.name, raw) ∷ [] })
    archived-Queued true false f w q = q w
    archived-Queued false true f w q = q w
    archived-Queued false false f w q = q w

    -- `finalize` leaves the tables alone, unless the "after" policies hold the post: then it has queued
    -- the same bytes with the same envelope, for this list, and returns their id.
    pub finalize-Queued : (w : World F) → Queued w (finalize platform list ingress raw w)
    unfolding finalize
    finalize-Queued w =
        let failed : (e : Error) → Queued w (err e, w) = λ e. inl (refl, λ id k. cc) in
        >>=-silent (Queued w)
          (lift (evaluate_dmarc platform.mail_auth platform.hostname list ingress raw)) _ w
          (λ v. refl) failed
          λ verdict.
            let post = post_with list ingress raw (membership_sets list.name w) verdict in
            >>=-silent (Queued w) (evaluate_after platform.sieve platform.engine list.domain post) _
              w (evaluate_after-IsSilent platform.sieve platform.engine list.domain post) failed
              λ outcome.
                archived-Queued outcome.archive platform.has_archive
                  (finalize_decided platform list ingress verdict outcome outcome.decision raw) w
                  (finalize_decided-Queued verdict outcome outcome.decision)
