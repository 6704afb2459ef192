-- ===== src/Policy/Load/DropIns.antt =====
-- The order of the drop-ins of a directory, `compile_dir` in `crates/carriers-core/src/policy.rs`.
use carriers.Base.{
  Text, Bool, ◌&&◌, List, [], ◌∷◌, codes, ok, err, and_then-ok, keep, ◌==◌, text_eq, text_beq_iff,
  ◌++◌, config, ◌⊎◌, inl, inr, arith, ◌≡◌, refl, ap, ◌∙◌, Bool-cases,
}
use carriers.Files.{Files, join, has_extension, readable}
use carriers.Policy.Load.{compile_file, compile_files, drop_in_names, compile_dir}
use carriers.SieveEngine.{Sieve}
use carriers.Store.Order.{
  text_leb, contains, any-sort_by, sort-IsAscending, IsAscending, IsDistinct,
}

contains-keep :
    (p : Text → Bool) (name : Text) (xs : List Text)
    → contains name (keep p xs) ≡ (p name && contains name xs)
contains-keep p name [] = ground arith
contains-keep p name (x ∷ xs) =
    ground (arith, contains-keep p name xs, text_beq_iff x name, λ (e : x ≡ name). ap p e)

keep-IsDistinct : (p : Text → Bool) (xs : List Text) → IsDistinct xs → IsDistinct (keep p xs)
keep-IsDistinct p [] u = tt
keep-IsDistinct p (x ∷ xs) (n, u) = elim (Bool-cases (p x)) [
  | inl h ↦ rw h (contains-keep p x xs ∙ rw n (ground arith), keep-IsDistinct p xs u)
  | inr h ↦ rw h (keep-IsDistinct p xs u)
]

module _ (sieve : Sieve) (files : Files) where
  abbrev pub is_drop_in : Text → Text → Bool
  is_drop_in dir name = files.is_file (join dir name) && has_extension (codes "sieve") name

  -- The scripts that the files of these names hold, in this order.
  abbrev pub Compiled : Text → Text → List Text → List sieve.Script → Type 0
  Compiled what dir [] [] = Unit
  Compiled what dir [] (s ∷ scripts) = ⊥
  Compiled what dir (name ∷ names) [] = ⊥
  Compiled what dir (name ∷ names) (script ∷ scripts) =
      (compile_file sieve files what (join dir name) ≡ ok script) × Compiled what dir names scripts

  compile_files-Compiled :
      (what dir : Text) (names : List Text) (scripts : List sieve.Script)
      → compile_files sieve files what dir names ≡ ok scripts
      → Compiled what dir names scripts
  unfolding compile_files
  compile_files-Compiled what dir [] scripts h = let e : [] ≡ scripts = cc in rw (← e) tt
  compile_files-Compiled what dir (name ∷ names) scripts h =
      let (script, (p, k)) =
        and_then-ok (compile_file sieve files what (join dir name)) _ scripts h in
      let (rest, (q, e)) = and_then-ok (compile_files sieve files what dir names) _ scripts k in
      let e' : script ∷ rest ≡ scripts = cc (e) in
      rw (← e') (p, compile_files-Compiled what dir names rest q)

  -- The scripts of a directory that could be read, in the order of the names, with what the names are.
  abbrev pub InOrder : Text → Text → List sieve.Script → Type 0
  InOrder what dir scripts =
      (entries : List (Text ⊎ Text)) × ((files.read_dir dir ≡ inl entries)
        × (Compiled what dir (drop_in_names sieve files dir entries) scripts
            × (((name : Text)
                  → contains name (drop_in_names sieve files dir entries)
                    ≡ (is_drop_in dir name && contains name (readable entries)))
                × (IsDistinct (readable entries)
                    → IsAscending (drop_in_names sieve files dir entries)))))

  -- Drop-ins that compile come from a directory that could be read, each from the file of its name,
  -- in the order of the names: strictly ascending if the directory has no name twice. The names are
  -- exactly those of readable entries that are regular files with the extension `sieve`.
  pub compile_dir-order :
      (what dir : Text) (scripts : List sieve.Script)
      → compile_dir sieve files what dir ≡ ok scripts
      → InOrder what dir scripts
  unfolding compile_dir drop_in_names
  compile_dir-order what dir scripts h = go (files.read_dir dir) refl h
    where
      go :
          (r : List (Text ⊎ Text) ⊎ Text)
          → files.read_dir dir ≡ r
          → (elim r [
            | inr e ↦ err (
                config (
                  codes "reading "
                  ++ what
                  ++ codes " drop-in directory "
                  ++ dir
                  ++ codes ": "
                  ++ e))
            | inl entries ↦
                compile_files sieve files what dir (drop_in_names sieve files dir entries)
          ])
            ≡ ok scripts
          → InOrder what dir scripts
      go (inr e) p k = absurd (cc)
      go (inl entries) p k =
          let test = is_drop_in dir in
          (
            entries,
            (
              p,
              (
                compile_files-Compiled what dir (drop_in_names sieve files dir entries) scripts k,
                (
                  λ name.
                      any-sort_by text_leb (λ n. n) (λ n. n == name) (keep test (readable entries))
                      ∙ contains-keep test name (readable entries),
                  λ u.
                      sort-IsAscending (keep test (readable entries))
                        (keep-IsDistinct test (readable entries) u),
                ),
              ),
            ),
          )
