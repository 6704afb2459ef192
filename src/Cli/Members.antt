-- ===== src/Cli/Members.antt =====
-- `sync` and the member commands in `crates/carriers/src/main.rs`. The world is the tables.
pub mod Import
use carriers.Base.{
  show, ℕ, ◌+◌, Text, Bytes, Bool, true, false, not, ◌||◌, Option, none, some, List, [], ◌∷◌, ◌++◌,
  codes, lines, trim, starts_with, is_empty, if◌then◌else◌, Result, ok, err, Fallible, yields,
  fails, question, with_context, bail,
}
use carriers.Files.{Files, join, io_result}
use carriers.MailingList.{Config, KeyConfig, MailingList}
use carriers.Provider.{MemberProvider, sqlite_member_provider}
use carriers.State.Load.{Toml, load_list, load_lists}
use carriers.Store.{Db, Score, Member, enable_member}
use carriers.Cli.{Screen, Command, pure, try_, ◌>>=◌, ◌>>◌, say, act, attempt}

-- A line that names no address.
unfoldable pub is_comment : Text → Bool
unfolding starts_with
is_comment address = is_empty address || starts_with (codes "#") address

-- The roles of a member as they are printed.
abbrev pub role_words : Bool → Bool → Bool → List Text
role_words subscribed poster moderator =
    (if subscribed then codes "subscriber" ∷ [] else [])
    ++ (if poster then codes "poster" ∷ [] else [])
    ++ (if moderator then codes "moderator" ∷ [] else [])

abbrev pub comma : List Text → Text
comma [] = []
comma (x ∷ []) = x
comma (x ∷ y ∷ xs) = x ++ codes ", " ++ comma (y ∷ xs)

abbrev pub roles : Bool → Bool → Bool → Text
roles subscribed poster moderator =
    let words = role_words subscribed poster moderator in
    if is_empty words then codes "no roles" else comma words

module _ {F : Type 0} (provider : MemberProvider F (Db F)) where
  unfoldable pub seed_lines : Text → List Text → ℕ → Command (Db F) ℕ
  unfolding is_comment trim
  seed_lines list [] n = pure n
  seed_lines list (line ∷ rest) n =
      let address = trim line in
      let skipped = seed_lines list rest n in
      let added = seed_lines list rest (n + 1) in
      if is_comment address
      then skipped
      else (attempt (λ r. r) (provider.add list address true false false) >>= λ _. added)

  module _ (files : Files) where
    unfoldable pub seed_subscribers_from_file : Text → Text → Command (Db F) ℕ
    unfolding seed_lines lines
    seed_subscribers_from_file list path = do
      text ← try_ (
          with_context (codes "reading members file " ++ path)
            (question (io_result (files.read_to_string path))))
      seed_lines list (lines text) 0

    -- The file of one list, if it has one.
    unfoldable pub sync_list : {Key : Type 0} → MailingList Key → Command (Db F) (Unit {0})
    unfolding seed_subscribers_from_file
    sync_list list = elim list.cfg.members_file [
      | none ↦ pure tt
      | some path ↦
          (seed_subscribers_from_file list.name path >>= λ n.
          say (list.name ++ codes ": imported " ++ show n ++ codes " members from " ++ path))
    ]

    unfoldable pub sync_lists :
        {Key : Type 0} → List (Text × MailingList Key) → Command (Db F) (Unit {0})
    unfolding sync_list
    sync_lists [] = pure tt
    sync_lists ((_, list) ∷ rest) = sync_list list >> sync_lists rest

    -- `sync`, once the tables are open.
    unfoldable pub sync :
        {Key : Type 0} → Toml F → (KeyConfig → Result Key) → Config F → Command (Db F) (Unit {0})
    unfolding sync_lists load_lists
    sync toml load_dkim_key config = do
      lists ← try_ (load_lists files toml load_dkim_key config)
      sync_lists lists

    -- `resolve_list_name`
    unfoldable pub resolve_list_name :
        {Key : Type 0}
        → Toml F
        → (KeyConfig → Result Key)
        → Config F
        → Text
        → Fallible (MailingList Key)
    unfolding load_list
    resolve_list_name toml load_dkim_key config name =
        let path = join config.lists_dir (name ++ codes ".toml") in
        if not (files.is_file path)
        then bail (codes "no such list `" ++ name ++ codes "` (expected " ++ path ++ codes ")")
        else question (load_list files toml load_dkim_key name path)

    -- `member add`
    unfoldable pub add :
        {Key : Type 0}
        → Toml F
        → (KeyConfig → Result Key)
        → Config F
        → Text
        → Text
        → Bool
        → Bool
        → Bool
        → Command (Db F) (Unit {0})
    unfolding resolve_list_name
    add toml load_dkim_key config list address no_subscribe poster moderator = do
      _ ← try_ (resolve_list_name toml load_dkim_key config list)
      attempt (λ r. r) (provider.add list address (not no_subscribe) poster moderator)
      say (
          codes "added "
          ++ address
          ++ codes " to "
          ++ list
          ++ codes " ("
          ++ roles (not no_subscribe) poster moderator
          ++ codes ")")

  -- `member remove`
  unfoldable pub remove : Text → Text → Command (Db F) (Unit {0})
  remove list address = do
    attempt (λ r. r) (provider.remove list address)
    say (codes "removed " ++ address ++ codes " from " ++ list)

-- `member list`: a score is printed with one decimal, if delivery is disabled or it is above zero.
module _ {F : Type 0} (above_zero : F → Bool) (one_decimal : F → Text) where
  abbrev pub status : Member F → Text
  status member =
      if member.bounce_disabled
      then codes " [bounce-disabled score=" ++ one_decimal member.bounce_score ++ codes "]"
      else if above_zero member.bounce_score
      then codes " [bounces score=" ++ one_decimal member.bounce_score ++ codes "]"
      else []

  unfoldable pub say_members : List (Member F) → Command (Db F) (Unit {0})
  say_members [] = pure tt
  say_members (member ∷ members) =
      say (
        member.address
        ++ codes "\t"
        ++ roles member.subscribed member.poster member.moderator
        ++ status member)
      >> say_members members

  unfoldable pub list_members : MemberProvider F (Db F) → Text → Command (Db F) (Unit {0})
  unfolding say_members
  list_members provider list = do
    members ← attempt (λ r. r) (provider.members list)
    say_members members

-- `member enable`
unfoldable pub enable : {F : Type 0} ⦃score : Score F⦄ → Text → Text → Command (Db F) (Unit {0})
unfolding enable_member
enable list address = do
  found ← act (enable_member list address)
  (if found
      then say (codes "re-enabled " ++ address ++ codes " on " ++ list)
      else try_ (bail (codes "no member " ++ address ++ codes " on " ++ list)))
