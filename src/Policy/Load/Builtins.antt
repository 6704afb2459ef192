-- ===== src/Policy/Load/Builtins.antt =====
-- What loading keeps of the built-in scripts of `crates/carriers-core/src/policy.rs`.
use carriers.Base.{
  codes, Text, Bytes, Bool, true, false, some, List, [], ◌∷◌, ok, and_then-ok, if◌then◌else◌, any,
  ◌==◌, text_eq, text_beq_iff, inl, inr, arith, ◌≡◌, refl, ap, ◌∙◌, Bool-cases,
}
use carriers.Files.{Files, join}
use carriers.Policy.{PolicyEngine, is_builtin, builtin_names, lookup}
use carriers.Policy.Load.{
  put, compile_builtin, compile_builtins, new, if_dir, load_into, with_global_before,
  with_global_after, load_domains, load, load_root,
}
use carriers.SieveEngine.{Sieve}
use carriers.Policy.Load.Extends.{
  lookup-put, core, Extends, Extends-refl, Extends-trans, if_dir-IsExtending,
  global_before-IsExtending, global_after-IsExtending, load_into-IsExtending,
  load_domains-IsExtending,
}

module _ (sieve : Sieve) (source : Text → Bytes) where
  -- The policies compiled from the program's own scripts are those of their names.
  compile_builtins-other :
      (names : List Text) (m m' : List (Text × sieve.Script)) (n : Text)
      → compile_builtins sieve source names m ≡ ok m'
      → any (λ x. x == n) names ≡ false
      → lookup n m' ≡ lookup n m
  unfolding compile_builtins
  compile_builtins-other [] m m' n h k = ap (lookup n) (cc)
  compile_builtins-other (x ∷ names) m m' n h k =
      let (script, (_, e)) = and_then-ok (compile_builtin sieve source x) _ m' h in
      ground (arith, compile_builtins-other names (put x script m) m' n e, lookup-put x n script m)

  compile_builtins-found :
      (names : List Text) (m m' : List (Text × sieve.Script)) (n : Text)
      → compile_builtins sieve source names m ≡ ok m'
      → any (λ x. x == n) names ≡ true
      → (script : sieve.Script) × ((compile_builtin sieve source n ≡ ok script)
          × (lookup n m' ≡ some script))
  unfolding compile_builtins
  compile_builtins-found [] m m' n h k = cc
  compile_builtins-found (x ∷ names) m m' n h k =
      let (script, (c, e)) = and_then-ok (compile_builtin sieve source x) _ m' h in
      elim (Bool-cases (any (λ y. y == n) names)) [
        | inl later ↦ compile_builtins-found names (put x script m) m' n e later
        | inr last ↦
            let same : (x == n) ≡ true = ground arith in
            (
              script,
              (
                rw (← (text_beq_iff x n).0 same) c,
                compile_builtins-other names (put x script m) m' n e last
                    ∙ lookup-put x n script m
                    ∙ rw same refl,
              ),
            )
      ]

  new-policies :
      (e : PolicyEngine sieve)
      → new sieve source ≡ ok e
      → compile_builtins sieve source builtin_names [] ≡ ok e.policies
  unfolding new
  new-policies e h =
      let builtin = compile_builtin sieve source in
      let (_, (_, h1)) = and_then-ok (builtin (codes "loop")) _ e h in
      let (_, (_, h2)) = and_then-ok (builtin (codes "duplicate")) _ e h1 in
      let (_, (_, h3)) = and_then-ok (builtin (codes "list-headers")) _ e h2 in
      let (_, (_, h4)) = and_then-ok (builtin (codes "dmarc-before")) _ e h3 in
      let (_, (_, h5)) = and_then-ok (builtin (codes "dmarc-after")) _ e h4 in
      let (_, (_, h6)) = and_then-ok (builtin (codes "munge-from")) _ e h5 in
      let (_, (_, h7)) = and_then-ok (builtin (codes "subject-prefix")) _ e h6 in
      let (policies, (k, h8)) =
        and_then-ok (compile_builtins sieve source builtin_names []) _ e h7 in
      let same : policies ≡ e.policies = cc (h8) in k ∙ ap ok same

  module _ (files : Files) where
    -- A loaded engine extends the one that has the built-in scripts only.
    abbrev pub IsLoaded : PolicyEngine sieve → Type 0
    IsLoaded e = (e0 : PolicyEngine sieve) × ((new sieve source ≡ ok e0) × Extends sieve e0 e)

    load-IsLoaded :
        (dir : Text) (e : PolicyEngine sieve) → load sieve files source dir ≡ ok e → IsLoaded e
    unfolding load
    load-IsLoaded dir e h =
        let (e0, (n, k)) = and_then-ok (new sieve source) _ e h in
        (
          e0,
          (
            n,
            if_dir-IsExtending sieve files dir (load_into sieve files)
                (load_into-IsExtending sieve files dir) e0 e k,
          ),
        )

    start-IsLoaded :
        (t : Bool) (dir : Text) (e : PolicyEngine sieve)
        → (if t then load sieve files source dir else new sieve source) ≡ ok e
        → IsLoaded e
    start-IsLoaded true dir e h = load-IsLoaded dir e h
    start-IsLoaded false dir e h = (e, (h, Extends-refl sieve e))

    load_root-IsLoaded :
        (root : Text) (e : PolicyEngine sieve)
        → load_root sieve files source root ≡ ok e
        → IsLoaded e
    unfolding load_root
    load_root-IsLoaded root e h =
        let dir = λ (name : Text). join root name in
        let (a, (p, h1)) =
          and_then-ok
            (if files.is_dir (dir (codes "moderation_policies"))
              then load sieve files source (dir (codes "moderation_policies"))
              else new sieve source)
            _ e h in
        let (b, (q, h2)) =
          and_then-ok
            (if_dir sieve files (dir (codes "before.d")) (with_global_before sieve files) a) _ e
            h1 in
        let (c, (r, h3)) =
          and_then-ok (if_dir sieve files (dir (codes "after.d")) (with_global_after sieve files) b)
            _ e h2 in
        let (e0, (n, x)) =
          start-IsLoaded (files.is_dir (dir (codes "moderation_policies"))) _ a p in
        let y =
          if_dir-IsExtending sieve files (dir (codes "before.d")) (with_global_before sieve files)
            (global_before-IsExtending sieve files (dir (codes "before.d"))) a b q in
        let z =
          if_dir-IsExtending sieve files (dir (codes "after.d")) (with_global_after sieve files)
            (global_after-IsExtending sieve files (dir (codes "after.d"))) b c r in
        let u =
          if_dir-IsExtending sieve files (dir (codes "domains")) (load_domains sieve files)
            (load_domains-IsExtending sieve files (dir (codes "domains"))) c e h3 in
        (
          e0,
          (
            n,
            Extends-trans sieve e0 a e x
                (Extends-trans sieve a b e y (Extends-trans sieve b c e z u)),
          ),
        )

    -- Whatever the directories hold, an engine that is loaded from them has the built-in scripts: the
    -- checks, gates and header scripts are those of a new engine, and under each built-in name is
    -- the policy compiled from the program's own script, never one of a file.
    pub load_root-builtin :
        (root name : Text) (e : PolicyEngine sieve)
        → load_root sieve files source root ≡ ok e
        → is_builtin name ≡ true
        → (e0 : PolicyEngine sieve) × ((script : sieve.Script) × ((new sieve source ≡ ok e0)
              × ((core sieve e ≡ core sieve e0)
                  × ((compile_builtin sieve source name ≡ ok script)
                      × (lookup name e.policies ≡ some script)))))
    load_root-builtin root name e h k =
        let (e0, (n, (c, same))) = load_root-IsLoaded root e h in
        let (script, (compiled, found)) =
          compile_builtins-found builtin_names [] e0.policies name (new-policies e0 n)
            (unfold is_builtin in k) in
        (e0, (script, (n, (c, (compiled, same name k ∙ found)))))
