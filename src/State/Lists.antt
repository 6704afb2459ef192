-- ===== src/State/Lists.antt =====
-- The lists that `load_lists` in `crates/carriers/src/state.rs` finds in a directory.
use carriers.Base.{
  Text, Bool, true, not, ◌||◌, List, [], ◌∷◌, ◌++◌, codes, Result, ok, yields, question,
  with_context, proceed_with-yields, with_context-yields, question-yields, if_taken,
  to_ascii_lowercase, ◌==◌, text_eq, text_beq_iff, ◌⊎◌, inl, inr, All, All-keep, arith, ◌≡◌, refl,
  ap, ◌∙◌,
}
use carriers.Base.Maybe.{is_some}
use carriers.Files.{Files, join, has_extension, file_stem, io_result, readable}
use carriers.MailingList.{Config, KeyConfig, MailingList}
use carriers.Policy.{lookup}
use carriers.Policy.Load.Extends.{lookup-put}
use carriers.State.Latest.{latest, add_entries-latest}
use carriers.State.Load.{
  Toml, Lists, load_list, keyed, add_list, add_entry, add_entries, load_lists,
}

module _ {F Key : Type 0} (files : Files) (toml : Toml F)
    (load_dkim_key : KeyConfig → Result Key) where
  -- A list from one of the files of the directory, under its posting address.
  abbrev pub IsFrom : Text → Text × MailingList Key → Type 0
  IsFrom dir (key, list) =
      (key ≡ to_ascii_lowercase list.cfg.posting_address)
      × ((name : Text) × ((has_extension (codes "toml") name ≡ true)
            × (load_list files toml load_dkim_key (file_stem name) (join dir name) ≡ ok list)))

  -- An address that is served.
  abbrev pub served : Text → List (Text × MailingList Key) → Bool
  served address lists = is_some (lookup (to_ascii_lowercase address) lists)

  keyed-served :
      (list : MailingList Key) (lists : List (Text × MailingList Key)) (address : Text)
      → served address (keyed files toml load_dkim_key list lists) ≡ (
          (to_ascii_lowercase list.cfg.posting_address == to_ascii_lowercase address)
          || served address lists)
  keyed-served list lists address =
      ap is_some (
        lookup-put (to_ascii_lowercase list.cfg.posting_address) (to_ascii_lowercase address) list
          lists)
      ∙ ground arith

  io_result-ok : {A : Type 0} (r : A ⊎ Text) (a : A) → io_result r ≡ ok a → r ≡ inl a
  io_result-ok (inl x) a h = let e : x ≡ a = cc in ap inl e
  io_result-ok (inr x) a h = absurd (cc)

  -- The list in a file of the directory.
  abbrev pub IsListed : Text → List (Text × MailingList Key) → Text → Type 0
  IsListed dir lists name =
      has_extension (codes "toml") name ≡ true
      → (list : MailingList Key) × ((load_list files toml load_dkim_key (file_stem name)
              (join dir name)
            ≡ ok list)
          × (served list.cfg.posting_address lists ≡ true))

  -- What adding keeps, and what it adds.
  abbrev Grown : Text → Lists files toml load_dkim_key → Lists files toml load_dkim_key → Type 0
  Grown dir a b =
      (All (IsFrom dir) a → All (IsFrom dir) b)
      × ((address : Text) → served address a ≡ true → served address b ≡ true)

  Grown-refl : (dir : Text) (a b : Lists files toml load_dkim_key) → a ≡ b → Grown dir a b
  Grown-refl dir a b e = rw (← e) (λ u. u, λ address h. h)

  Grown-trans :
      (dir : Text) (a b c : Lists files toml load_dkim_key)
      → Grown dir a b
      → Grown dir b c
      → Grown dir a c
  Grown-trans dir a b c (f, p) (g, q) = (λ u. g (f u), λ address h. q address (p address h))

  add_list-Grown :
      (dir name : Text) (a b : Lists files toml load_dkim_key)
      → add_list files toml load_dkim_key dir name a ≡ yields b
      → Grown dir a b × IsListed dir b name
  unfolding add_list
  add_list-Grown dir name a b h =
      elim (if_taken (has_extension (codes "toml") name) _ (yields a) (yields b) h) [
        | inr (n, e) ↦ (Grown-refl dir a b (cc), λ t. absurd (cc))
        | inl (t, k) ↦
            let found = load_list files toml load_dkim_key (file_stem name) (join dir name) in
            let (list, (p, e)) =
              proceed_with-yields
                (with_context (codes "loading list " ++ join dir name) (question found)) _ b k in
            let loaded =
              question-yields found list (with_context-yields _ (question found) list p) in
            let same : keyed files toml load_dkim_key list a ≡ b = cc (e) in
            let here : IsFrom dir (to_ascii_lowercase list.cfg.posting_address, list) =
              (refl, (name, (t, loaded))) in
            rw (← same) (
              (
                λ u. (here, All-keep (IsFrom dir) _ a u),
                λ address h. keyed-served list a address ∙ rw h (ground arith),
              ),
              λ _. (
                list,
                (
                  loaded,
                  keyed-served list a list.cfg.posting_address
                      ∙ ground (
                        arith,
                        text_beq_iff (to_ascii_lowercase list.cfg.posting_address)
                            (to_ascii_lowercase list.cfg.posting_address),
                      ),
                ),
              ),
            )
      ]

  IsListed-Grown :
      (dir : Text) (a b : Lists files toml load_dkim_key) (name : Text)
      → Grown dir a b
      → IsListed dir a name
      → IsListed dir b name
  IsListed-Grown dir a b name (f, p) u t =
      let (list, (loaded, h)) = u t in (list, (loaded, p list.cfg.posting_address h))

  add_entries-Grown :
      (dir : Text) (entries : List (Text ⊎ Text)) (a b : Lists files toml load_dkim_key)
      → add_entries files toml load_dkim_key dir entries a ≡ yields b
      → Grown dir a b × All (IsListed dir b) (readable entries)
  unfolding add_entries add_entry
  add_entries-Grown dir [] a b h = (Grown-refl dir a b (cc), tt)
  add_entries-Grown dir (inr e ∷ entries) a b h = absurd (cc)
  add_entries-Grown dir (inl name ∷ entries) a c h =
      let (b, (p, k)) = proceed_with-yields (add_list files toml load_dkim_key dir name a) _ c h in
      let (g, u) = add_list-Grown dir name a b p in
      let (g', us) = add_entries-Grown dir entries b c k in
      (Grown-trans dir a b c g g', (IsListed-Grown dir b c name g' u, us))

  -- The lists of a directory that were loaded: each is under its posting address and from a file
  -- with the extension `toml`, every such file that is there gave a list whose posting address is
  -- served, and what an address finds is the list in the last such file, in the directory's order,
  -- that has one with that posting address.
  abbrev pub AreLists : Text → Lists files toml load_dkim_key → Type 0
  AreLists dir lists =
      All (IsFrom dir) lists
      × ((files.is_dir dir ≡ true)
          → (entries : List (Text ⊎ Text)) × ((files.read_dir dir ≡ inl entries)
              × (All (IsListed dir lists) (readable entries)
                  × ((key : Text)
                      → lookup key lists
                        ≡ latest files toml load_dkim_key dir key (readable entries)))))

  pub load_lists-AreLists :
      (config : Config F) (lists : Lists files toml load_dkim_key)
      → load_lists files toml load_dkim_key config ≡ yields lists
      → AreLists config.lists_dir lists
  unfolding load_lists
  load_lists-AreLists config lists h =
      let dir = config.lists_dir in
      elim (if_taken (not (files.is_dir dir)) _ _ (yields lists) h) [
        | inl (t, e) ↦ let same : [] ≡ lists = cc (e) in rw (← same) (tt, λ d. absurd (cc (t, d)))
        | inr (t, k) ↦
            let read = io_result (files.read_dir dir) in
            let (entries, (p, e)) =
              proceed_with-yields (with_context (codes "reading lists dir " ++ dir) (question read))
                _ lists k in
            let (g, u) = add_entries-Grown dir entries [] lists e in
            (
              g.0 tt,
              λ _. (
                entries,
                (
                  io_result-ok (files.read_dir dir) entries (
                      question-yields read entries
                        (with_context-yields _ (question read) entries p)),
                  (u, λ key. add_entries-latest files toml load_dkim_key dir key entries lists e),
                ),
              ),
            )
      ]
