-- ===== src/Cli/Setup/Refusal.antt =====
-- The files that `setup` in `crates/carriers/src/main.rs` does not overwrite.
use carriers.Base.{
  Text, true, false, List, [], ◌∷◌, ◌++◌, codes, Fallible, Failure, fails, bailed, any, question,
  with_context, inl, inr, ◌⊎◌, if◌then◌else◌, arith, ◌≡◌, refl, ap, Bool-cases,
}
use carriers.Files.{join, io_result}
use carriers.Keys.{KeyLibrary}
use carriers.Cli.{Screen, proceed}
use carriers.Cli.Zone.{SetupArgs}
use carriers.Cli.Setup.{
  System, outputs, known_policy, refuse_existing, prepare, generate_all, setup,
}

module _ (library : KeyLibrary) {W : Type 0} (system : System library.Entropy W) where
  abbrev pub refusal : Text → Fallible (Unit {0})
  refusal path = fails (bailed (path ++ codes " already exists (pass --force to overwrite)"))

  -- One of the files that a setup makes is there: the key of a selector, or the zone.
  abbrev pub IsTaken : SetupArgs → W → Type 0
  IsTaken args w =
      (system.exists (join args.out_dir (args.selector_dkim ++ codes ".der")) w ≡ true)
      ⊎ ((system.exists (join args.out_dir (args.selector_arc ++ codes ".der")) w ≡ true)
          ⊎ ((system.exists (join args.out_dir (args.selector_dkim2 ++ codes ".der")) w ≡ true)
              ⊎ (system.exists (join args.out_dir (args.domain ++ codes ".zone")) w ≡ true)))

  outputs-taken :
      (args : SetupArgs) (w : W)
      → IsTaken args w
      → any (λ path. system.exists path w) (outputs args) ≡ true
  outputs-taken args w (inl h) = ground (arith, h)
  outputs-taken args w (inr (inl h)) = ground (arith, h)
  outputs-taken args w (inr (inr (inl h))) = ground (arith, h)
  outputs-taken args w (inr (inr (inr h))) = ground (arith, h)

  refuse_existing-taken :
      (paths : List Text) (s : Screen W)
      → any (λ path. system.exists path s.world) paths ≡ true
      → (path : Text) × (refuse_existing library system paths s ≡ (refusal path, s))
  unfolding refuse_existing
  refuse_existing-taken [] s h = absurd (cc)
  refuse_existing-taken (p ∷ paths) s h = elim (Bool-cases (system.exists p s.world)) [
    | inl there ↦ (p, rw there refl)
    | inr absent ↦
        let (path, e) = refuse_existing-taken paths s (ground arith) in (path, rw absent e)
  ]

  -- The making of the directory, then the refusal.
  prepare-refuses :
      (args : SetupArgs) (s : Screen W)
      → args.force ≡ false
      → IsTaken args (system.create_dir_all args.out_dir s.world).1
      → (e : Failure) × (prepare library system args s
          ≡ (fails e, record s { world = (system.create_dir_all args.out_dir s.world).1 }))
  unfolding prepare
  prepare-refuses args s safe taken =
      let w = (system.create_dir_all args.out_dir s.world).1 in
      let (path, refused) =
        refuse_existing-taken (outputs args) (record s { world = w })
          (outputs-taken args w taken) in
      rw safe (decided (system.create_dir_all args.out_dir s.world).0 w (path, refused))
    where
      decided :
          (made : Unit {0} ⊎ Text) (w : W)
          → (path : Text) × (refuse_existing library system (outputs args) (record s { world = w })
              ≡ (refusal path, record s { world = w }))
          → (e : Failure) × (proceed
                (λ _. refuse_existing library system (outputs args))
                (
                  with_context
                      (codes "creating output directory " ++ args.out_dir)
                      (question (io_result made)),
                  record s { world = w },
                )
              ≡ (fails e, record s { world = w }))
      decided (inl u) w (path, refused) = (_, refused)
      decided (inr text) w refused = (_, refl)

  -- Without `--force`, if one of the four files that a setup makes is there once the output
  -- directory has been asked for, then the command fails, whatever the policy and whatever became of
  -- the directory: nothing is printed, and the disk is as it was or as the making of the directory
  -- left it, so that no key is made and no file is written.
  pub setup-refuses :
      (args : SetupArgs) (s : Screen W)
      → args.force ≡ false
      → IsTaken args (system.create_dir_all args.out_dir s.world).1
      → (e : Failure) × (setup library system args s ≡ (
        fails e,
        (if known_policy args.dmarc_policy
            then record s { world = (system.create_dir_all args.out_dir s.world).1 }
            else s),
      ))
  unfolding setup
  setup-refuses args s safe taken = elim (Bool-cases (known_policy args.dmarc_policy)) [
    | inr unknown ↦ rw unknown (_, refl)
    | inl known ↦
        let (e, refused) = prepare-refuses args s safe taken in
        rw known (e, ap (proceed (λ _. generate_all library system args)) refused)
  ]
