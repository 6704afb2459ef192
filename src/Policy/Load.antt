-- ===== src/Policy/Load.antt =====
-- Loading of a policy engine, `crates/carriers-core/src/policy.rs`: the built-in scripts, the custom
-- policies of a directory, and the drop-ins around them. `source` gives the text of a script that is
-- compiled into the program, by its name in `builtin_policies`.
pub mod Extends
pub mod Builtins
pub mod DropIns
pub mod Tests
use carriers.Base.{
  Text, Bytes, Bool, true, false, not, ◌&&◌, Option, none, some, List, [], ◌∷◌, ◌++◌, codes, Result,
  ok, err, Error, config, and_then, map_err, show_error, if◌then◌else◌, keep, ◌==◌, text_eq,
  text_beq, ◌⊎◌, inl, inr, length, map,
}
use carriers.Files.{Files, join, has_extension, file_stem, io_result, readable}
use carriers.Policy.{DomainScripts, PolicyEngine, builtin_names, is_builtin, lookup}
use carriers.SieveEngine.{Sieve, compile_script}
use carriers.Store.Order.{sort_by, text_leb}
use carriers.Base.Maybe.{is_some}

-- `HashMap::insert`
abbrev pub put {ℓ} : {V : Type ℓ} → Text → V → List (Text × V) → List (Text × V)
put k v m = (k, v) ∷ keep (λ e. not (e.0 == k)) m

abbrev pub described : Text → Text → Error → Error
described what path e =
    config (codes "compiling " ++ what ++ codes " policy " ++ path ++ codes ": " ++ show_error e)

module _ (sieve : Sieve) (source : Text → Bytes) where
  open sieve use {Script}

  -- The closure of `new`.
  unfoldable pub compile_builtin : Text → Result Script
  unfolding compile_script
  compile_builtin name =
      map_err (λ e. config (codes "compiling built-in `" ++ name ++ codes "`: " ++ show_error e))
        (compile_script sieve (source name))

  unfoldable pub compile_builtins : List Text → List (Text × Script) → Result (List (Text × Script))
  unfolding compile_builtin text_beq
  compile_builtins [] policies = ok policies
  compile_builtins (name ∷ names) policies =
      and_then (compile_builtin name) (λ script. compile_builtins names (put name script policies))

  -- `PolicyEngine::new`
  unfoldable pub new : Result (PolicyEngine sieve)
  unfolding compile_builtins
  new = and_then (compile_builtin (codes "loop")) λ loop_check.
      and_then (compile_builtin (codes "duplicate")) λ duplicate_check.
        and_then (compile_builtin (codes "list-headers")) λ list_headers.
          and_then (compile_builtin (codes "dmarc-before")) λ dmarc_before_gate.
            and_then (compile_builtin (codes "dmarc-after")) λ dmarc_after_gate.
              and_then (compile_builtin (codes "munge-from")) λ munge_from_script.
                and_then (compile_builtin (codes "subject-prefix")) λ subject_prefix_script.
                  and_then (compile_builtins builtin_names []) λ policies. ok (record {
                    loop_check = loop_check;
                    duplicate_check = duplicate_check;
                    list_headers = list_headers;
                    dmarc_before_gate = dmarc_before_gate;
                    dmarc_after_gate = dmarc_after_gate;
                    munge_from_script = munge_from_script;
                    subject_prefix_script = subject_prefix_script;
                    policies = policies;
                    global_before = [];
                    global_after = [];
                    domains = [];
                  })

module _ (sieve : Sieve) (files : Files) where
  open sieve use {Script}
  open files use {is_dir, is_file, read_dir, read}

  unfoldable pub compile_file : Text → Text → Result Script
  unfolding compile_script
  compile_file what path =
      and_then (io_result (read path))
        λ text. map_err (described what path) (compile_script sieve text)

  unfoldable pub compile_files : Text → Text → List Text → Result (List Script)
  unfolding compile_file
  compile_files what dir [] = ok []
  compile_files what dir (name ∷ names) =
      and_then (compile_file what (join dir name))
        λ script. and_then (compile_files what dir names) λ scripts. ok (script ∷ scripts)

  -- The names of the drop-ins in a directory, in their order.
  unfoldable pub drop_in_names : Text → List (Text ⊎ Text) → List Text
  unfolding sort_by text_leb has_extension
  drop_in_names dir entries =
      sort_by text_leb (λ name. name)
        (keep (λ name. is_file (join dir name) && has_extension (codes "sieve") name)
          (readable entries))

  unfoldable pub compile_dir : Text → Text → Result (List Script)
  unfolding drop_in_names compile_files
  compile_dir what dir = elim (read_dir dir) [
    | inr e ↦
        err (
          config
            (codes "reading " ++ what ++ codes " drop-in directory " ++ dir ++ codes ": " ++ e))
    | inl entries ↦ compile_files what dir (drop_in_names dir entries)
  ]

  unfoldable pub with_global_before : Text → PolicyEngine sieve → Result (PolicyEngine sieve)
  unfolding compile_dir
  with_global_before dir this =
      and_then (compile_dir (codes "global before") dir)
        λ scripts. ok (record this { global_before = scripts })

  unfoldable pub with_global_after : Text → PolicyEngine sieve → Result (PolicyEngine sieve)
  unfolding compile_dir
  with_global_after dir this =
      and_then (compile_dir (codes "global after") dir)
        λ scripts. ok (record this { global_after = scripts })

  -- The entry of a domain, or an empty one.
  abbrev pub domain_entry : Option (DomainScripts sieve) → DomainScripts sieve
  domain_entry none = record { before = []; after = [] }
  domain_entry (some scripts) = scripts

  abbrev pub domain_label : Text → Text → Text
  domain_label domain half = codes "domain `" ++ domain ++ codes "` " ++ half

  -- `entry(domain).or_default()`, with one half replaced.
  abbrev pub set_domain_before : Text → PolicyEngine sieve → List Script → PolicyEngine sieve
  set_domain_before domain this scripts =
      let entry = domain_entry (lookup domain this.domains) in
      record this { domains = put domain (record entry { before = scripts }) this.domains }

  abbrev pub set_domain_after : Text → PolicyEngine sieve → List Script → PolicyEngine sieve
  set_domain_after domain this scripts =
      let entry = domain_entry (lookup domain this.domains) in
      record this { domains = put domain (record entry { after = scripts }) this.domains }

  unfoldable pub with_domain_before : Text → Text → PolicyEngine sieve → Result (PolicyEngine sieve)
  unfolding compile_dir
  with_domain_before domain dir this =
      and_then (compile_dir (domain_label domain (codes "before")) dir)
        λ scripts. ok (set_domain_before domain this scripts)

  unfoldable pub with_domain_after : Text → Text → PolicyEngine sieve → Result (PolicyEngine sieve)
  unfolding compile_dir
  with_domain_after domain dir this =
      and_then (compile_dir (domain_label domain (codes "after")) dir)
        λ scripts. ok (set_domain_after domain this scripts)

  unfoldable pub compile_custom : Text → Bytes → Result Script
  unfolding compile_script
  compile_custom path text =
      map_err (λ e. config (codes "compiling policy " ++ path ++ codes ": " ++ show_error e))
        (compile_script sieve text)

  -- One file of the directory of custom policies.
  unfoldable pub load_custom : Text → Text → PolicyEngine sieve → Result (PolicyEngine sieve)
  unfolding is_builtin text_beq compile_custom
  load_custom dir name this =
      let stem = file_stem name in
      let path = join dir name in
      if is_builtin stem
      then err (
          config (
            codes "policy `"
            ++ stem
            ++ codes "` ("
            ++ path
            ++ codes ") uses a reserved built-in name"))
      else and_then (io_result (read path)) λ text.
        and_then (compile_custom path text)
          λ script. ok (record this { policies = put stem script this.policies })

  unfoldable pub load_entry : Text → Text ⊎ Text → PolicyEngine sieve → Result (PolicyEngine sieve)
  unfolding load_custom has_extension
  load_entry dir (inr e) this = io_result (inr e)
  load_entry dir (inl name) this =
      if has_extension (codes "sieve") name then load_custom dir name this else ok this

  unfoldable pub load_entries :
      Text → List (Text ⊎ Text) → PolicyEngine sieve → Result (PolicyEngine sieve)
  unfolding load_entry
  load_entries dir [] this = ok this
  load_entries dir (entry ∷ entries) this =
      and_then (load_entry dir entry this) (load_entries dir entries)

  -- A directory that may be missing.
  abbrev pub if_dir :
      Text
      → (Text → PolicyEngine sieve → Result (PolicyEngine sieve))
      → PolicyEngine sieve
      → Result (PolicyEngine sieve)
  if_dir dir attach this = if is_dir dir then attach dir this else ok this

  unfoldable pub load_into : Text → PolicyEngine sieve → Result (PolicyEngine sieve)
  unfolding load_entries
  load_into dir this = and_then (io_result (read_dir dir)) λ entries. load_entries dir entries this

  unfoldable pub attach_domain : Text → Text → PolicyEngine sieve → Result (PolicyEngine sieve)
  unfolding with_domain_before with_domain_after
  attach_domain domains domain this =
      let dir = join domains domain in
      and_then (if_dir (join dir (codes "before.d")) (with_domain_before domain) this)
        (if_dir (join dir (codes "after.d")) (with_domain_after domain))

  unfoldable pub attach_domains :
      Text → List Text → PolicyEngine sieve → Result (PolicyEngine sieve)
  unfolding attach_domain
  attach_domains domains [] this = ok this
  attach_domains domains (domain ∷ rest) this =
      and_then (attach_domain domains domain this) (attach_domains domains rest)

  unfoldable pub load_domains : Text → PolicyEngine sieve → Result (PolicyEngine sieve)
  unfolding attach_domains sort_by text_leb
  load_domains domains this = elim (read_dir domains) [
    | inr e ↦ err (config (codes "reading domains directory " ++ domains ++ codes ": " ++ e))
    | inl entries ↦
        attach_domains domains
          (sort_by text_leb (λ name. name)
            (keep (λ name. is_dir (join domains name)) (readable entries)))
          this
  ]

  module _ (source : Text → Bytes) where
    -- `PolicyEngine::load`
    unfoldable pub load : Text → Result (PolicyEngine sieve)
    unfolding new load_into
    load dir = and_then (new sieve source) (if_dir dir load_into)

    unfoldable pub load_root : Text → Result (PolicyEngine sieve)
    unfolding load with_global_before with_global_after load_domains
    load_root root =
        let moderation = join root (codes "moderation_policies") in
        let start = if is_dir moderation then load moderation else new sieve source in
        and_then start λ a.
          and_then (if_dir (join root (codes "before.d")) with_global_before a) λ b.
            and_then (if_dir (join root (codes "after.d")) with_global_after b)
              (if_dir (join root (codes "domains")) load_domains)

-- `contains` and `names`.

unfoldable pub has_policy : (sieve : Sieve) → PolicyEngine sieve → Text → Bool
unfolding text_beq
has_policy sieve engine name = is_some (lookup name engine.policies)

unfoldable pub custom_names : (sieve : Sieve) → PolicyEngine sieve → List Text
unfolding is_builtin
custom_names sieve engine = keep (λ name. not (is_builtin name)) (map (λ e. e.0) engine.policies)
