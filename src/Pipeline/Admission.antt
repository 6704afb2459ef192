-- ===== src/Pipeline/Admission.antt =====
-- What has to hold for `intake` of `crates/carriers-core/src/pipeline.rs` to distribute a post.
use carriers.Base.{
  Bytes, Bool, true, false, Option, none, some, [], ◌∷◌, codes, ok, pure, proceed, ◌≡◌, refl, sym,
  ap, ◌∙◌,
}
use carriers.MailingList.{MailingList}
use carriers.Pipeline.{Ingress, Prepared, distribute}
use carriers.Pipeline.Steps.{
  Mail, World, Platform, archive_if, finalize, intake_decided, moderate_post, unless_duplicate,
  unless_loop, intake_parsed, intake, bare_post, store_duplicates,
}
use carriers.Policy.{
  Post, evaluate_before, check_loop, check_duplicate, run_script, is_discard, no_lists, env_list,
  env_list_id,
}
use carriers.Policy.Chain.{evaluate_before-result}
use carriers.Policy.Outcome.{PolicyDecision, PolicyOutcome, approve, moderate, discard, reject}
use carriers.Sign.{AuthVerdict, evaluate_dmarc}
use carriers.SieveEngine.{SieveRun}
use carriers.SieveEngine.Answers.{run-answered}
use carriers.Store.{subscribers}
use carriers.Pipeline.Distribution.{
  after-ok, pure-world, same_world, archive_if-db, hold_parsed-held, lift-known, seen_post,
  finalize-IsApproved,
}

module _ {F Key : Type 0} (platform : Platform Key) (list : MailingList Key)
    (ingress : Ingress) where
  -- An approval of the before half, for the same verdict.
  abbrev pub IsAdmitted : Bytes → World F → Type 0
  IsAdmitted raw w =
      (v : AuthVerdict) × ((evaluate_dmarc platform.mail_auth platform.hostname list ingress raw
          ≡ ok v)
        × ((o : PolicyOutcome) × ((evaluate_before platform.sieve platform.engine list.cfg.policy
                  list.domain (seen_post platform list ingress raw w v) w
                ≡ (ok o, w))
              × (o.decision ≡ approve))))

  intake_decided-approve :
      (mail : Mail) (d : PolicyDecision) (raw : Bytes) (w : World F) (p : Prepared) (w' : World F)
      → intake_decided platform list ingress mail d raw w ≡ (ok (distribute p), w')
      → (d ≡ approve) × (finalize platform list ingress raw w ≡ (ok (distribute p), w'))
  unfolding intake_decided
  intake_decided-approve mail approve raw w p w' h = (refl, h)
  intake_decided-approve mail moderate raw w p w' h =
      absurd (hold_parsed-held platform list ingress (some mail) raw w p w' h)
  intake_decided-approve mail discard raw w p w' h = absurd (cc)
  intake_decided-approve mail (reject reason) raw w p w' h = absurd (cc)

  moderate_post-IsAdmitted :
      (mail : Mail) (raw : Bytes) (w : World F) (p : Prepared) (w' : World F)
      → moderate_post platform list ingress mail raw w ≡ (ok (distribute p), w')
      → IsAdmitted raw w × ((p.recipients ≡ subscribers list.name w.db) × (w'.db ≡ w.db))
  unfolding moderate_post
  moderate_post-IsAdmitted mail raw w p w' h =
      let dmarc = evaluate_dmarc platform.mail_auth platform.hostname list ingress raw in
      let (v, (w1, (e1, h1))) = after-ok _ (distribute p) w' (dmarc, w) h in
      let (known, q1) = lift-known platform list ingress dmarc w w1 v e1 in
      let post = seen_post platform list ingress raw w v in
      let half = evaluate_before platform.sieve platform.engine list.cfg.policy list.domain post in
      let (o, (w2, (e2, h2))) = after-ok _ (distribute p) w' (half w1) h1 in
      let q2 : w2 ≡ w1 = same_world _ o w1 w2 e2 (
        ap (λ x. x.1)
          (evaluate_before-result platform.sieve post platform.engine list.cfg.policy list.domain
            w1)) in
      let (u, (w3, (e3, h3))) =
        after-ok _ (distribute p) w' (archive_if o.archive platform.has_archive list.name raw w2)
          h2 in
      let q3 : w3.db ≡ w2.db =
        sym (ap (λ x. x.1.db) e3)
        ∙ archive_if-db platform list ingress o.archive platform.has_archive raw w2 in
      let same : w3.db ≡ w.db = q3 ∙ ap (λ x. x.db) (q2 ∙ q1) in
      let (a, final) = intake_decided-approve mail o.decision raw w3 p w' h3 in
      let (_, (r, d)) = finalize-IsApproved platform list ingress raw w3 p w' final in
      let before : half w ≡ (ok o, w) = ap half (sym q1) ∙ e2 ∙ ap (λ x. (ok o, x)) (q2 ∙ q1) in
      ((v, (known, (o, (before, a)))), (r ∙ ap (subscribers list.name) same, d ∙ same))

  -- The loop check of a post fails to find a loop, and so does the duplicate check a duplicate.
  abbrev pub IsNew : Bytes → World F → World F → Type 0
  IsNew raw w w1 =
      (check_loop platform.sieve platform.engine (bare_post list ingress raw) w ≡ (ok false, w))
      × (check_duplicate platform.sieve platform.engine (bare_post list ingress raw)
            (store_duplicates list.name) w
          ≡ (ok false, w1))

  check_loop-world :
      (post : Post) (w : World F) → (check_loop platform.sieve platform.engine post w).1 ≡ w
  unfolding check_loop run_script
  check_loop-world post w =
      let env = (env_list, post.list_name) ∷ (env_list_id, post.list_id) ∷ [] in
      let f : SieveRun → Bool = λ r. is_discard r.outcome in
      let known =
        run-answered platform.sieve (codes "loop") platform.engine.loop_check post.raw
          post.mail_from env no_lists (λ _ _. false) w in
      ap (λ r. (proceed (λ a. pure (f a)) r).1) known ∙ pure-world f _ w

  unless_duplicate-new :
      (mail : Mail) (raw : Bytes) (seen : Bool) (w : World F) (p : Prepared) (w' : World F)
      → unless_duplicate platform list ingress mail raw seen w ≡ (ok (distribute p), w')
      → (seen ≡ false) × (moderate_post platform list ingress mail raw w ≡ (ok (distribute p), w'))
  unfolding unless_duplicate
  unless_duplicate-new mail raw true w p w' h = absurd (cc)
  unless_duplicate-new mail raw false w p w' h = (refl, h)

  unless_loop-new :
      (mail : Mail) (raw : Bytes) (looped : Bool) (w : World F) (p : Prepared) (w' : World F)
      → unless_loop platform list ingress mail raw looped w ≡ (ok (distribute p), w')
      → (looped ≡ false)
        × (unless_loop platform list ingress mail raw false w ≡ (ok (distribute p), w'))
  unfolding unless_loop
  unless_loop-new mail raw true w p w' h = absurd (cc)
  unless_loop-new mail raw false w p w' h = (refl, h)

  intake_parsed-IsNew :
      (m : Option Mail) (raw : Bytes) (w : World F) (p : Prepared) (w' : World F)
      → intake_parsed platform list ingress m raw w ≡ (ok (distribute p), w')
      → (w1 : World F) × (IsNew raw w w1
          × (IsAdmitted raw w1 × ((p.recipients ≡ subscribers list.name w1.db) × (w'.db ≡ w1.db))))
  unfolding intake_parsed unless_loop
  intake_parsed-IsNew none raw w p w' h = absurd (cc)
  intake_parsed-IsNew (some mail) raw w p w' h =
      let post = bare_post list ingress raw in
      let loops = check_loop platform.sieve platform.engine post in
      let duplicates =
        check_duplicate platform.sieve platform.engine post (store_duplicates list.name) in
      let (looped, (w0, (e0, h0))) = after-ok _ (distribute p) w' (loops w) h in
      let q0 : w0 ≡ w = same_world _ looped w w0 e0 (check_loop-world post w) in
      let (l, k0) = unless_loop-new mail raw looped w0 p w' h0 in
      let (seen, (w1, (e1, h1))) = after-ok _ (distribute p) w' (duplicates w0) k0 in
      let (s, k1) = unless_duplicate-new mail raw seen w1 p w' h1 in
      (
        w1,
        (
          (
            e0 ∙ ap (λ b. (ok b, w0)) l ∙ ap (λ x. (ok false, x)) q0,
            ap duplicates (sym q0) ∙ e1 ∙ ap (λ b. (ok b, w1)) s,
          ),
          moderate_post-IsAdmitted mail raw w1 p w' k1,
        ),
      )

  -- `intake` distributes a post only if the loop check and the duplicate check let it pass, its
  -- authentication gave a verdict, and the before half of the policy chain, told this verdict and the
  -- members, approved. The recipients are then the list's subscribers, and the tables are left as
  -- the duplicate check left them.
  pub intake-IsAdmitted :
      (raw : Bytes) (w : World F) (p : Prepared) (w' : World F)
      → intake platform list ingress raw w ≡ (ok (distribute p), w')
      → (w1 : World F) × (IsNew raw w w1
          × (IsAdmitted raw w1 × ((p.recipients ≡ subscribers list.name w1.db) × (w'.db ≡ w1.db))))
  unfolding intake
  intake-IsAdmitted raw w p w' h = intake_parsed-IsNew (platform.parse raw) raw w p w' h
