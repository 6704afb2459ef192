-- ===== src/State/Latest.antt =====
-- The list that `load_lists` in `crates/carriers/src/state.rs` keeps under a posting address.
use carriers.Base.{
  Text, Option, none, some, List, [], ◌∷◌, codes, ◌++◌, Result, ok, err, yields, question,
  with_context, proceed_with-yields, with_context-yields, question-yields, if_taken, if◌then◌else◌,
  to_ascii_lowercase, ◌==◌, text_eq, ◌⊎◌, inl, inr, ◌≡◌, refl, ap, sym, ◌∙◌, Bool-cases,
}
use carriers.Files.{Files, join, has_extension, file_stem, readable}
use carriers.MailingList.{KeyConfig, MailingList}
use carriers.Policy.{lookup}
use carriers.Policy.Load.Extends.{lookup-put}
use carriers.State.Load.{Toml, Lists, load_list, keyed, add_list, add_entry, add_entries}

module _ {F Key : Type 0} (files : Files) (toml : Toml F)
    (load_dkim_key : KeyConfig → Result Key) where
  -- A loaded list, if its posting address is the one asked for.
  abbrev under : Text → Result (MailingList Key) → Option (MailingList Key)
  under key (ok list) =
      if to_ascii_lowercase list.cfg.posting_address == key then some list else none
  under key (err e) = none

  -- The list in a file, if the file is one of a list with that posting address.
  abbrev in_file : Text → Text → Text → Option (MailingList Key)
  in_file dir key name =
      if has_extension (codes "toml") name
      then under key (load_list files toml load_dkim_key (file_stem name) (join dir name))
      else none

  abbrev or_else : Option (MailingList Key) → Option (MailingList Key) → Option (MailingList Key)
  or_else (some list) other = some list
  or_else none other = other

  -- The list in the last of the files that have one with that posting address.
  abbrev pub latest : Text → Text → List Text → Option (MailingList Key)
  latest dir key [] = none
  latest dir key (name ∷ names) = or_else (latest dir key names) (in_file dir key name)

  or_else_assoc :
      (a b c : Option (MailingList Key)) → or_else (or_else a b) c ≡ or_else a (or_else b c)
  or_else_assoc (some list) b c = refl
  or_else_assoc none b c = refl

  keyed-lookup :
      (key : Text) (list : MailingList Key) (lists : Lists files toml load_dkim_key)
      → lookup key (keyed files toml load_dkim_key list lists)
        ≡ or_else (under key (ok list)) (lookup key lists)
  keyed-lookup key list lists =
      lookup-put (to_ascii_lowercase list.cfg.posting_address) key list lists
      ∙ elim (Bool-cases (to_ascii_lowercase list.cfg.posting_address == key)) [
        | inl h ↦ rw h refl
        | inr h ↦ rw h refl
      ]

  add_list-lookup :
      (dir key name : Text) (a b : Lists files toml load_dkim_key)
      → add_list files toml load_dkim_key dir name a ≡ yields b
      → lookup key b ≡ or_else (in_file dir key name) (lookup key a)
  unfolding add_list
  add_list-lookup dir key name a b h =
      elim (if_taken (has_extension (codes "toml") name) _ (yields a) (yields b) h) [
        | inr (n, e) ↦ let same : a ≡ b = cc (e) in rw (n, same) refl
        | inl (t, k) ↦
            let found = load_list files toml load_dkim_key (file_stem name) (join dir name) in
            let (list, (p, e)) =
              proceed_with-yields
                (with_context (codes "loading list " ++ join dir name) (question found)) _ b k in
            let loaded =
              question-yields found list (with_context-yields _ (question found) list p) in
            let same : keyed files toml load_dkim_key list a ≡ b = cc (e) in
            rw (t, loaded) (ap (lookup key) (sym same) ∙ keyed-lookup key list a)
      ]

  -- After the entries of a directory, an address finds the list in the last file that has one for it.
  add_entries-lookup :
      (dir key : Text) (entries : List (Text ⊎ Text)) (a b : Lists files toml load_dkim_key)
      → add_entries files toml load_dkim_key dir entries a ≡ yields b
      → lookup key b ≡ or_else (latest dir key (readable entries)) (lookup key a)
  unfolding add_entries add_entry
  add_entries-lookup dir key [] a b h = let same : a ≡ b = cc (h) in rw same refl
  add_entries-lookup dir key (inr e ∷ entries) a b h = absurd (cc)
  add_entries-lookup dir key (inl name ∷ entries) a c h =
      let (b, (p, k)) = proceed_with-yields (add_list files toml load_dkim_key dir name a) _ c h in
      add_entries-lookup dir key entries b c k
      ∙ ap (or_else (latest dir key (readable entries))) (add_list-lookup dir key name a b p)
      ∙ sym
          (or_else_assoc (latest dir key (readable entries)) (in_file dir key name) (lookup key a))

  pub add_entries-latest :
      (dir key : Text) (entries : List (Text ⊎ Text)) (b : Lists files toml load_dkim_key)
      → add_entries files toml load_dkim_key dir entries [] ≡ yields b
      → lookup key b ≡ latest dir key (readable entries)
  add_entries-latest dir key entries b h =
      add_entries-lookup dir key entries [] b h ∙ only (latest dir key (readable entries))
    where
      only : (r : Option (MailingList Key)) → or_else r none ≡ r
      only (some list) = refl
      only none = refl
