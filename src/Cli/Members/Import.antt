-- ===== src/Cli/Members/Import.antt =====
-- What the import of a file of members does to the roles, `seed_subscribers_from_file` in
-- `crates/carriers/src/main.rs`.
use carriers.Base.{
  ℕ, ◌+◌, Text, Bool, true, false, not, ◌&&◌, List, [], ◌∷◌, lines, trim, any, starts_with, nat_eq,
  if◌then◌else◌, ◌==◌, text_eq, inl, inr, Fallible, yields, arith, ◌≡◌, refl, ap, ◌∙◌, Bool-cases,
}
use carriers.Files.{Files}
use carriers.Provider.{sqlite_member_provider}
use carriers.Cli.{Screen}
use carriers.Cli.Members.{is_comment, seed_lines, seed_subscribers_from_file}
use carriers.Store.{Db, Score, count, normalise, add_member, is_member, is_subscriber, is_poster}
use carriers.Store.Invariant.{IsValid, add, exec, exec-IsValid}
use carriers.Store.Roles.{RolesAre, roles-add_member}

-- A line that names an address: something is left of it without the white space around it, and that
-- does not begin with a `#`.
abbrev pub is_entry : Text → Bool
is_entry [] = false
is_entry (c ∷ s) = not (c == b'#')

abbrev pub names_address : Text → Bool
names_address line = is_entry (trim line)

is_comment-entry : (s : Text) → is_comment s ≡ not (is_entry s)
unfolding is_comment starts_with
is_comment-entry [] = refl
is_comment-entry (c ∷ s) = ground arith

-- A line that names this address.

abbrev pub listed : Text → List Text → Bool
listed address = any (λ line. names_address line && (normalise (trim line) == normalise address))

module _ {F : Type 0} ⦃score : Score F⦄ where
  -- The count, the roles of one address, and the tables, after an import.
  abbrev pub IsImported :
      Text → Text → Text → List Text → ℕ → Db F → Fallible ℕ × Screen (Db F) → Type 0
  IsImported list list' address text_lines n d (r, s) =
      let named = (list == list') && listed address text_lines in
      (r ≡ yields (n + count names_address text_lines))
      × (RolesAre list' address (if named then true else is_member list' address d)
            (if named then true else is_subscriber list' address d)
            (if named then false else is_poster list' address d) s.world
          × IsValid s.world)

  seed_lines-IsImported :
      (list list' address : Text) (text_lines : List Text) (n : ℕ) (s : Screen (Db F))
      → IsValid s.world
      → IsImported list list' address text_lines n s.world
          (seed_lines sqlite_member_provider list text_lines n s)
  unfolding seed_lines sqlite_member_provider
  seed_lines-IsImported list list' address [] n s v =
      (ap yields (omega arith), ((ground arith, ground arith, ground arith), v))
  seed_lines-IsImported list list' address (line ∷ rest) n s v =
      elim (Bool-cases (is_comment (trim line))) [
        | inl comment ↦
            let unnamed : names_address line ≡ false =
              ground (arith, is_comment-entry (trim line)) in
            rw (comment, unnamed) (seed_lines-IsImported list list' address rest n s v)
        | inr named ↦
            let entry : names_address line ≡ true = ground (arith, is_comment-entry (trim line)) in
            let d = add_member list (trim line) true false false s.world in
            let v' : IsValid d =
              unfold exec in exec-IsValid (add list (trim line) true false false) s.world v in
            let (p, ((a, b, c), u)) =
              seed_lines-IsImported list list' address rest (n + 1) (record s { world = d }) v' in
            let (x, y, z) =
              roles-add_member list (trim line) true false false list' address s.world v in
            rw (named, entry)
              (
                p ∙ ap yields (omega arith),
                ((ground (arith, a, x), ground (arith, b, y), ground (arith, c, z)), u),
              )
      ]

  -- If the file can be read, then on valid tables the import succeeds with the number of lines that are
  -- neither blank nor comments, and the tables stay valid. An address that such a line names
  -- is then a member and a subscriber of the list and no poster, even if it was one before; every
  -- other address, and every other list, keeps its roles.
  pub seed_subscribers_from_file-IsImported :
      (files : Files) (list path text list' address : Text) (s : Screen (Db F))
      → IsValid s.world
      → files.read_to_string path ≡ inl text
      → IsImported list list' address
          (lines text)
          0
          s.world
          (seed_subscribers_from_file sqlite_member_provider files list path s)
  unfolding seed_subscribers_from_file
  seed_subscribers_from_file-IsImported files list path text list' address s v h =
      rw h (seed_lines-IsImported list list' address (lines text) 0 s v)
