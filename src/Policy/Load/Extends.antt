-- ===== src/Policy/Load/Extends.antt =====
-- What the steps of loading in `crates/carriers-core/src/policy.rs` keep of an engine.
use carriers.Base.{
  codes, Text, Bool, true, false, not, some, List, [], ◌∷◌, Result, ok, err, and_then, and_then-ok,
  if◌then◌else◌, keep, ◌==◌, text_eq, text_beq_iff, text_beq_ne, guard-ok, ◌++◌, config, ◌⊎◌, inl,
  inr, arith, ◌≡◌, refl, sym, ap, ◌∙◌, Bool-cases,
}
use carriers.Files.{Files, join, file_stem, has_extension, io_result, readable}
use carriers.Policy.{PolicyEngine, is_builtin, lookup}
use carriers.Policy.Load.{
  put, compile_dir, compile_custom, load_custom, load_entry, load_entries, if_dir, load_into,
  with_global_before, with_global_after, with_domain_before, with_domain_after, domain_label,
  set_domain_before, set_domain_after, attach_domain, attach_domains, load_domains,
}
use carriers.SieveEngine.{Sieve}
use carriers.Store.Order.{sort_by, text_leb}

lookup-keep {ℓ} :
    {V : Type ℓ} (k j : Text) (m : List (Text × V))
    → (k == j) ≡ false
    → lookup j (keep (λ e. not (e.0 == k)) m) ≡ lookup j m
lookup-keep k j [] h = refl
lookup-keep k j ((i, v) ∷ m) h =
    ground (arith, lookup-keep k j m h, text_beq_iff i k, text_beq_iff i j, text_beq_iff k j)

-- An insertion is found under its key, and changes no other.
pub lookup-put {ℓ} :
    {V : Type ℓ} (k j : Text) (v : V) (m : List (Text × V))
    → lookup j (put k v m) ≡ (if k == j then some v else lookup j m)
lookup-put k j v m = elim (Bool-cases (k == j)) [
  | inl h ↦ rw h refl
  | inr h ↦ rw h (lookup-keep k j m h)
]

module _ (sieve : Sieve) where
  -- The engine without what is loaded from directories.
  abbrev pub core : PolicyEngine sieve → PolicyEngine sieve
  core e = record e { policies = []; global_before = []; global_after = []; domains = [] }

  -- The fixed scripts and the built-in policies are those of the engine before.
  abbrev pub Extends : PolicyEngine sieve → PolicyEngine sieve → Type 0
  Extends a b =
      (core b ≡ core a)
      × ((n : Text) → is_builtin n ≡ true → lookup n b.policies ≡ lookup n a.policies)

  pub Extends-refl : (a : PolicyEngine sieve) → Extends a a
  Extends-refl a = (refl, λ n h. refl)

  pub Extends-trans : (a b c : PolicyEngine sieve) → Extends a b → Extends b c → Extends a c
  Extends-trans a b c (p, f) (q, g) = (q ∙ p, λ n h. g n h ∙ f n h)

  -- A step of loading that extends the engine, if it succeeds.
  abbrev pub IsExtending : (PolicyEngine sieve → Result (PolicyEngine sieve)) → Type 0
  IsExtending step = (a b : PolicyEngine sieve) → step a ≡ ok b → Extends a b

  and_then-IsExtending :
      (f g : PolicyEngine sieve → Result (PolicyEngine sieve))
      → IsExtending f
      → IsExtending g
      → IsExtending (λ a. and_then (f a) g)
  and_then-IsExtending f g ef eg a c h =
      let (b, (p, q)) = and_then-ok (f a) g c h in Extends-trans a b c (ef a b p) (eg b c q)

  ok-IsExtending : IsExtending ok
  ok-IsExtending a b h =
      let e : a ≡ b = cc in (ap core (sym e), λ n k. ap (λ x. lookup n x.policies) (sym e))

  pub if-IsExtending :
      (t : Bool) (f : PolicyEngine sieve → Result (PolicyEngine sieve))
      → IsExtending f
      → IsExtending (λ a. if t then f a else ok a)
  if-IsExtending true f ef a b h = ef a b h
  if-IsExtending false f ef a b h = ok-IsExtending a b h

  -- A step that only sets the drop-ins.
  set-IsExtending :
      {S : Type 0} (r : Result S) (set : PolicyEngine sieve → S → PolicyEngine sieve)
      → ((a : PolicyEngine sieve) (s : S) → Extends a (set a s))
      → IsExtending (λ a. and_then r (λ s. ok (set a s)))
  set-IsExtending (ok s) set es a b h =
      let e : set a s ≡ b = cc in
      Extends-trans a (set a s) b (es a s) (ok-IsExtending (set a s) b (ap ok e))
  set-IsExtending (err x) set es a b h = absurd (cc)

  put-builtin :
      (stem : Text) (script : sieve.Script) (m : List (Text × sieve.Script))
      → is_builtin stem ≡ false
      → (n : Text) → is_builtin n ≡ true
      → lookup n (put stem script m) ≡ lookup n m
  put-builtin stem script m h n k =
      lookup-put stem n script m ∙ rw (text_beq_ne stem n (λ e. cc (ap is_builtin e, h, k))) refl

  module _ (files : Files) where
    pub if_dir-IsExtending :
        (dir : Text) (attach : Text → PolicyEngine sieve → Result (PolicyEngine sieve))
        → IsExtending (attach dir)
        → IsExtending (if_dir sieve files dir attach)
    if_dir-IsExtending dir attach ea = if-IsExtending (files.is_dir dir) (attach dir) ea

    pub global_before-IsExtending : (dir : Text) → IsExtending (with_global_before sieve files dir)
    unfolding with_global_before
    global_before-IsExtending dir =
        set-IsExtending (compile_dir sieve files (codes "global before") dir)
          (λ a s. record a { global_before = s }) (λ a s. (refl, λ n h. refl))

    pub global_after-IsExtending : (dir : Text) → IsExtending (with_global_after sieve files dir)
    unfolding with_global_after
    global_after-IsExtending dir =
        set-IsExtending (compile_dir sieve files (codes "global after") dir)
          (λ a s. record a { global_after = s }) (λ a s. (refl, λ n h. refl))

    domain_before-IsExtending :
        (domain dir : Text) → IsExtending (with_domain_before sieve files domain dir)
    unfolding with_domain_before
    domain_before-IsExtending domain dir =
        set-IsExtending
          (compile_dir sieve files (domain_label sieve files domain (codes "before")) dir)
          (set_domain_before sieve files domain) (λ a s. (refl, λ n h. refl))

    domain_after-IsExtending :
        (domain dir : Text) → IsExtending (with_domain_after sieve files domain dir)
    unfolding with_domain_after
    domain_after-IsExtending domain dir =
        set-IsExtending
          (compile_dir sieve files (domain_label sieve files domain (codes "after")) dir)
          (set_domain_after sieve files domain) (λ a s. (refl, λ n h. refl))

    load_custom-IsExtending : (dir name : Text) → IsExtending (load_custom sieve files dir name)
    unfolding load_custom
    load_custom-IsExtending dir name a b h =
        let stem = file_stem name in
        let path = join dir name in
        let (free, h') = guard-ok (is_builtin stem) _ _ b h in
        let (text, (_, h'')) = and_then-ok (io_result (files.read path)) _ b h' in
        let (script, (_, e)) = and_then-ok (compile_custom sieve files path text) _ b h'' in
        let set : PolicyEngine sieve = record a { policies = put stem script a.policies } in
        Extends-trans a set b (refl, put-builtin stem script a.policies free)
          (ok-IsExtending set b e)

    load_entry-IsExtending :
        (dir : Text) (entry : Text ⊎ Text) → IsExtending (load_entry sieve files dir entry)
    unfolding load_entry
    load_entry-IsExtending dir (inr e) a b h = absurd (cc)
    load_entry-IsExtending dir (inl name) a b h =
        if-IsExtending (has_extension (codes "sieve") name) (load_custom sieve files dir name)
          (load_custom-IsExtending dir name) a b h

    load_entries-IsExtending :
        (dir : Text) (entries : List (Text ⊎ Text))
        → IsExtending (load_entries sieve files dir entries)
    unfolding load_entries
    load_entries-IsExtending dir [] = ok-IsExtending
    load_entries-IsExtending dir (entry ∷ entries) =
        and_then-IsExtending (load_entry sieve files dir entry)
          (load_entries sieve files dir entries) (load_entry-IsExtending dir entry)
          (load_entries-IsExtending dir entries)

    pub load_into-IsExtending : (dir : Text) → IsExtending (load_into sieve files dir)
    unfolding load_into
    load_into-IsExtending dir a b h =
        let (entries, (_, e)) = and_then-ok (io_result (files.read_dir dir)) _ b h in
        load_entries-IsExtending dir entries a b e

    attach_domain-IsExtending :
        (domains domain : Text) → IsExtending (attach_domain sieve files domains domain)
    unfolding attach_domain
    attach_domain-IsExtending domains domain =
        let before = join (join domains domain) (codes "before.d") in
        let after = join (join domains domain) (codes "after.d") in
        and_then-IsExtending (if_dir sieve files before (with_domain_before sieve files domain))
          (if_dir sieve files after (with_domain_after sieve files domain))
          (if_dir-IsExtending before (with_domain_before sieve files domain)
            (domain_before-IsExtending domain before))
          (if_dir-IsExtending after (with_domain_after sieve files domain)
            (domain_after-IsExtending domain after))

    attach_domains-IsExtending :
        (domains : Text) (names : List Text)
        → IsExtending (attach_domains sieve files domains names)
    unfolding attach_domains
    attach_domains-IsExtending domains [] = ok-IsExtending
    attach_domains-IsExtending domains (name ∷ names) =
        and_then-IsExtending (attach_domain sieve files domains name)
          (attach_domains sieve files domains names) (attach_domain-IsExtending domains name)
          (attach_domains-IsExtending domains names)

    pub load_domains-IsExtending : (domains : Text) → IsExtending (load_domains sieve files domains)
    unfolding load_domains
    load_domains-IsExtending domains a b h = go (files.read_dir domains) h
      where
        names : List (Text ⊎ Text) → List Text
        names entries =
            sort_by text_leb (λ name. name)
              (keep (λ name. files.is_dir (join domains name)) (readable entries))

        go :
            (r : List (Text ⊎ Text) ⊎ Text)
            → (elim r [
              | inr e ↦
                  err (config (codes "reading domains directory " ++ domains ++ codes ": " ++ e))
              | inl entries ↦ attach_domains sieve files domains (names entries) a
            ])
              ≡ ok b
            → Extends a b
        go (inl entries) k = attach_domains-IsExtending domains (names entries) a b k
        go (inr e) k = absurd (cc)
