-- ===== src/Pipeline/Distribution.antt =====
-- What has to hold for `finalize` of `crates/carriers-core/src/pipeline.rs` to distribute a post.
use carriers.Base.{
  ℕ, Text, Bytes, Bool, true, false, Option, none, some, List, [], ◌∷◌, codes, Action, Result, ok,
  err, pure, lift, proceed, ◌≡◌, refl, sym, ap, ◌∙◌,
}
use carriers.MailingList.{MailingList, list_id}
use carriers.Pipeline.{Ingress, Prepared, distribute}
use carriers.Pipeline.Steps.{
  Mail, World, Platform, membership_sets, hold_result, hold, archive_if, post_with, munged,
  prefixed, prepare, hold_parsed, finalize_decided, finalize,
}
use carriers.Policy.{
  Post, evaluate_after, rewrite_by, no_lists, env_list, env_list_id, apply_list_headers,
  apply_munge_from, apply_subject_prefix,
}
use carriers.Policy.Chain.{evaluate_after-result}
use carriers.Policy.Outcome.{PolicyDecision, PolicyOutcome, approve, moderate, discard, reject}
use carriers.Sign.{AuthVerdict, evaluate_dmarc}
use carriers.SieveEngine.{Sieve, SieveRun}
use carriers.Base.Maybe.{unwrap_or}
use carriers.SieveEngine.Answers.{run-answered}
use carriers.Store.{Db, subscribers}
use carriers.Transform.{subject_prefix_env, list_header_env}

module _ {W A B : Type 0} where
  -- An action that succeeds after another says what the other did.
  pub after-ok :
      (f : A → Action W B) (b : B) (w' : W) (r : Result A × W)
      → proceed f r ≡ (ok b, w')
      → (a : A) × ((w : W) × ((r ≡ (ok a, w)) × (f a w ≡ (ok b, w'))))
  after-ok f b w' (ok a, w) h = (a, (w, (refl, h)))
  after-ok f b w' (err e, w) h = absurd (cc)

  pub pure-world : (f : A → B) (r : Result A) (w : W) → (proceed (λ a. pure (f a)) (r, w)).1 ≡ w
  pure-world f (ok a) w = refl
  pure-world f (err e) w = refl

-- The world after an action that leaves it alone.
pub same_world :
    {W A : Type 0} (r : Result A × W) (a : A) (w w' : W) → r ≡ (ok a, w') → r.1 ≡ w → w' ≡ w
same_world r a w w' e q = sym (ap (λ x. x.1) e) ∙ q

rewrite_by-world :
    (sieve : Sieve) (script : sieve.Script) {W : Type 0} (name list_name id : Text)
    (env : List (Text × Text)) (raw : Bytes) (w : W)
    → (rewrite_by sieve script name list_name id env raw w).1 ≡ w
unfolding rewrite_by
rewrite_by-world sieve script name list_name id env raw w =
    let all_env = (env_list, list_name) ∷ (env_list_id, id) ∷ env in
    let f : SieveRun → Bytes = λ r. unwrap_or r.message raw in
    let known = run-answered sieve name script raw [] all_env no_lists (λ _ _. false) w in
    ap (λ r. (proceed (λ a. pure (f a)) r).1) known ∙ pure-world f _ w

module _ {F Key : Type 0} (platform : Platform Key) (list : MailingList Key)
    (ingress : Ingress) where
  munged-world :
      (b : Bool) (raw : Bytes) (w : World F) → (munged platform list ingress b raw w).1 ≡ w
  unfolding munged apply_munge_from
  munged-world true raw w =
      rewrite_by-world platform.sieve platform.engine.munge_from_script (codes "munge-from")
        list.name (list_id list) _ raw w
  munged-world false raw w = refl

  prefixed-world :
      (o : Option (List (Text × Text))) (raw : Bytes) (w : World F)
      → (prefixed platform list ingress o raw w).1 ≡ w
  unfolding prefixed apply_subject_prefix
  prefixed-world (some env) raw w =
      rewrite_by-world platform.sieve platform.engine.subject_prefix_script (codes "subject-prefix")
        list.name (list_id list) env raw w
  prefixed-world none raw w = refl

  pub archive_if-db :
      (a b : Bool) (raw : Bytes) (w : World F) → (archive_if a b list.name raw w).1.db ≡ w.db
  unfolding archive_if
  archive_if-db true true raw w = refl
  archive_if-db true false raw w = refl
  archive_if-db false b raw w = refl

  -- A post that is held is not distributed.
  hold_result-held :
      (w : World F) (r : Result ℕ × Db F) (p : Prepared) (w' : World F)
      → hold_result w r ≡ (ok (distribute p), w')
      → ⊥
  unfolding hold_result
  hold_result-held w (ok id, db) p w' h = cc
  hold_result-held w (err e, db) p w' h = cc

  pub hold_parsed-held :
      (m : Option Mail) (raw : Bytes) (w : World F) (p : Prepared) (w' : World F)
      → hold_parsed platform list ingress m raw w ≡ (ok (distribute p), w')
      → ⊥
  unfolding hold_parsed hold
  hold_parsed-held none raw w p w' h = hold_result-held w _ p w' h
  hold_parsed-held (some m) raw w p w' h = hold_result-held w _ p w' h

  distribute-same :
      (f : Bytes → Prepared) (r : Result Bytes) (w : World F) (p : Prepared) (w' : World F)
      → proceed (λ m. pure (distribute (f m))) (r, w) ≡ (ok (distribute p), w')
      → (m : Bytes) × ((f m ≡ p) × (w' ≡ w))
  distribute-same f (ok m) w p w' h = (m, (cc, cc))
  distribute-same f (err e) w p w' h = absurd (cc)

  prepare-recipients :
      (v : AuthVerdict) (o : PolicyOutcome) (raw : Bytes) (w : World F) (p : Prepared)
      (w' : World F)
      → prepare platform list ingress v o raw w ≡ (ok (distribute p), w')
      → (p.recipients ≡ subscribers list.name w.db) × (w' ≡ w)
  unfolding prepare
  prepare-recipients v o raw w p w' h =
      let (a, (w1, (e1, h1))) =
        after-ok _ (distribute p) w' (munged platform list ingress o.munge_from raw w) h in
      let (b, (w2, (e2, h2))) =
        after-ok _ (distribute p) w' (prefixed platform list ingress (subject_prefix_env list) a w1)
          h1 in
      let (c, (w3, (e3, h3))) =
        after-ok _ (distribute p) w'
          (apply_list_headers platform.sieve platform.engine list.name (list_id list)
            (list_header_env list) b w2)
          h2 in
      let (m, (e, q)) = distribute-same _ _ w3 p w' h3 in
      let q1 = same_world _ a w w1 e1 (munged-world o.munge_from raw w) in
      let q2 = same_world _ b w1 w2 e2 (prefixed-world (subject_prefix_env list) a w1) in
      let q3 = same_world _ c w2 w3 e3 (
        unfold apply_list_headers in
        rewrite_by-world platform.sieve platform.engine.list_headers (codes "list-headers")
          list.name (list_id list) (list_header_env list) b w2) in
      (sym (ap (λ x. x.recipients) e), q ∙ q3 ∙ q2 ∙ q1)

  finalize_decided-approve :
      (v : AuthVerdict) (o : PolicyOutcome) (d : PolicyDecision) (raw : Bytes) (w : World F)
      (p : Prepared) (w' : World F)
      → finalize_decided platform list ingress v o d raw w ≡ (ok (distribute p), w')
      → (d ≡ approve) × ((p.recipients ≡ subscribers list.name w.db) × (w' ≡ w))
  unfolding finalize_decided
  finalize_decided-approve v o approve raw w p w' h = (refl, prepare-recipients v o raw w p w' h)
  finalize_decided-approve v o moderate raw w p w' h =
      absurd (hold_parsed-held (platform.parse raw) raw w p w' h)
  finalize_decided-approve v o discard raw w p w' h = absurd (cc)
  finalize_decided-approve v o (reject reason) raw w p w' h = absurd (cc)

  pub lift-known :
      {A : Type 0} (r : Result A) (w w' : World F) (a : A)
      → lift r w ≡ (ok a, w')
      → (r ≡ ok a) × (w' ≡ w)
  lift-known r w w' a h = (ap (λ x. x.0) h, sym (ap (λ x. x.1) h))

  -- The policy's view of a post at a world.
  abbrev pub seen_post : Bytes → World F → AuthVerdict → Post
  seen_post raw w v = post_with list ingress raw (membership_sets list.name w) v

  -- The verdict on a post, and an approval of the after half for it.
  abbrev pub IsApproved : Bytes → World F → Type 0
  IsApproved raw w =
      (v : AuthVerdict) × ((evaluate_dmarc platform.mail_auth platform.hostname list ingress raw
          ≡ ok v)
        × ((o : PolicyOutcome) × ((evaluate_after platform.sieve platform.engine list.domain
                  (seen_post raw w v) w
                ≡ (ok o, w))
              × (o.decision ≡ approve))))

  -- If `finalize` distributes a post, then its authentication gave a verdict, and the after half of
  -- the policy chain, told this verdict and the members at the time, approved; the recipients are the
  -- list's subscribers at the time, and the tables are left as they were.
  pub finalize-IsApproved :
      (raw : Bytes) (w : World F) (p : Prepared) (w' : World F)
      → finalize platform list ingress raw w ≡ (ok (distribute p), w')
      → IsApproved raw w × ((p.recipients ≡ subscribers list.name w.db) × (w'.db ≡ w.db))
  unfolding finalize
  finalize-IsApproved raw w p w' h =
      let dmarc = evaluate_dmarc platform.mail_auth platform.hostname list ingress raw in
      let (v, (w1, (e1, h1))) = after-ok _ (distribute p) w' (dmarc, w) h in
      let (known, q1) = lift-known dmarc w w1 v e1 in
      let post = seen_post raw w v in
      let (o, (w2, (e2, h2))) =
        after-ok _ (distribute p) w'
          (evaluate_after platform.sieve platform.engine list.domain post w1) h1 in
      let q2 : w2 ≡ w1 = same_world _ o w1 w2 e2 (
        ap (λ x. x.1) (evaluate_after-result platform.sieve post platform.engine list.domain w1)) in
      let (u, (w3, (e3, h3))) =
        after-ok _ (distribute p) w' (archive_if o.archive platform.has_archive list.name raw w2)
          h2 in
      let q3 : w3.db ≡ w2.db =
        sym (ap (λ x. x.1.db) e3) ∙ archive_if-db o.archive platform.has_archive raw w2 in
      let same : w3.db ≡ w.db = q3 ∙ ap (λ x. x.db) (q2 ∙ q1) in
      let (a, (r, q4)) = finalize_decided-approve v o o.decision raw w3 p w' h3 in
      let after : evaluate_after platform.sieve platform.engine list.domain post w ≡ (ok o, w) =
        ap (λ x. evaluate_after platform.sieve platform.engine list.domain post x) (sym q1)
        ∙ e2
        ∙ ap (λ x. (ok o, x)) (q2 ∙ q1) in
      (
        (v, (known, (o, (after, a)))),
        (r ∙ ap (subscribers list.name) same, ap (λ x. x.db) q4 ∙ same),
      )
