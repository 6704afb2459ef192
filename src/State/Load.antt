-- ===== src/State/Load.antt =====
-- The start of the daemon: `Config::load` in `crates/carriers-core/src/config.rs`, `List::load` in
-- `crates/carriers-core/src/list.rs`, and `load_policy_engine`, `load_lists` and `AppState::load` in
-- `crates/carriers/src/state.rs`. The parser of TOML and SQLite are parameters.
use carriers.Base.{
  Text, Bytes, not, none, some, List, [], ◌∷◌, ◌++◌, codes, Result, ok, err, Error, and_then,
  Fallible, yields, question, with_context, proceed_with, to_ascii_lowercase, lower, if◌then◌else◌,
  text_eq, text_beq, ◌⊎◌, inl, inr,
}
use carriers.Files.{Files, join, has_extension, file_stem, with_file_name, io_result}
use carriers.MailingList.{Config, ListConfig, KeyConfig, MailingList, from_config}
use carriers.Policy.{PolicyEngine}
use carriers.Policy.Load.{put, new, load_root}
use carriers.SieveEngine.{Sieve}
use carriers.State.{AppState, validate_policies}
use carriers.Store.{Db}

-- `toml::from_str` at the two types that are read, with the text of its error.
pub record Toml (F : Type 0) : Type 0 where
  pub config : Text → Config F ⊎ Text
  pub list : Text → ListConfig ⊎ Text

abbrev pub toml_result {ℓ} : {A : Type ℓ} → A ⊎ Text → Result A
toml_result (inl a) = ok a
toml_result (inr e) = err (Error.toml e)

module _ {F : Type 0} (files : Files) (toml : Toml F) where
  -- The default of `sieve_scripts` is the directory of that name beside the file.
  unfoldable pub with_sibling : Text → Config F → Config F
  unfolding with_file_name
  with_sibling path config = elim config.sieve_scripts [
    | some _ ↦ config
    | none ↦
        let sibling = with_file_name path (codes "sieve_scripts") in
        if files.is_dir sibling then record config { sieve_scripts = some sibling } else config
  ]

  -- `Config::load`
  unfoldable pub load_config : Text → Result (Config F)
  unfolding with_sibling
  load_config path =
      and_then (io_result (files.read_to_string path))
        λ text. and_then (toml_result (toml.config text)) λ config. ok (with_sibling path config)

  module _ {Key : Type 0} (load_dkim_key : KeyConfig → Result Key) where
    abbrev pub Lists : Type 0
    Lists = List (Text × MailingList Key)

    -- `List::load`
    unfoldable pub load_list : Text → Text → Result (MailingList Key)
    unfolding from_config
    load_list name path =
        and_then (io_result (files.read_to_string path))
          λ text. and_then (toml_result (toml.list text)) λ cfg. from_config load_dkim_key name cfg

    abbrev pub keyed : MailingList Key → Lists → Lists
    keyed list lists = put (to_ascii_lowercase list.cfg.posting_address) list lists

    -- One name of the directory of lists.
    unfoldable pub add_list : Text → Text → Lists → Fallible Lists
    unfolding load_list has_extension file_stem text_beq lower
    add_list dir name lists =
        if has_extension (codes "toml") name
        then proceed_with
            (with_context (codes "loading list " ++ join dir name)
              (question (load_list (file_stem name) (join dir name))))
            (λ list. yields (keyed list lists))
        else yields lists

    unfoldable pub add_entry : Text → Text ⊎ Text → Lists → Fallible Lists
    unfolding add_list
    add_entry dir (inr e) lists = question (io_result (inr e))
    add_entry dir (inl name) lists = add_list dir name lists

    unfoldable pub add_entries : Text → List (Text ⊎ Text) → Lists → Fallible Lists
    unfolding add_entry
    add_entries dir [] lists = yields lists
    add_entries dir (entry ∷ entries) lists =
        proceed_with (add_entry dir entry lists) (add_entries dir entries)

    unfoldable pub load_lists : Config F → Fallible Lists
    unfolding add_entries
    load_lists config =
        if not (files.is_dir config.lists_dir)
        then yields []
        else proceed_with
            (with_context (codes "reading lists dir " ++ config.lists_dir)
              (question (io_result (files.read_dir config.lists_dir))))
            (λ entries. add_entries config.lists_dir entries [])

    module _ (sieve : Sieve) (source : Text → Bytes) where
      unfoldable pub load_policy_engine : Config F → Fallible (PolicyEngine sieve)
      unfolding load_root new
      load_policy_engine config = elim config.sieve_scripts [
        | some dir ↦
            with_context (codes "loading Sieve scripts from " ++ dir)
              (question (load_root sieve files source dir))
        | none ↦ with_context (codes "compiling built-in policies") (question (new sieve source))
      ]

      -- `AppState::load`: the lists with the configuration, the scripts, and the database, which
      -- `Store::open` opens.
      unfoldable pub load :
          (Text → Result (Db F))
          → Config F
          → Fallible (AppState F Key × (PolicyEngine sieve × Db F))
      unfolding load_policy_engine load_lists validate_policies
      load open_store config =
          proceed_with
            (with_context (codes "opening database " ++ config.db_path)
              (question (open_store config.db_path)))
            λ store. proceed_with (load_policy_engine config) λ policy.
              proceed_with (load_lists config) λ lists.
                proceed_with (validate_policies sieve lists policy)
                  λ _. yields (record { config = config; lists = lists }, (policy, store))
