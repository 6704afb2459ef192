-- ===== src/Store/Roles.antt =====
-- The membership queries against the writes of roles: `is_member`, `is_subscriber`, `is_poster`,
-- `add_member`, `remove_member`.
use carriers.Base.{
  Text, Bool, true, false, not, ◌&&◌, Option, none, some, List, [], ◌∷◌, ◌==◌, nat_eq, text_eq,
  text_beq_iff, if◌then◌else◌, keep, arith, ◌≡◌, refl,
}
use carriers.Store.{
  Score, MemberRow, Db, has_key, count, positive, upsert, normalise, add_member, remove_member,
  is_member, is_subscriber, is_poster,
}
use carriers.Store.Members.{row_of, row_of-keep, row_of-upsert, same_key}
use carriers.Store.Invariant.{UniqueKeys, IsValid, upsert-UniqueKeys, keep-UniqueKeys}

-- What a test says of the row that was found.
abbrev pub holds : {F : Type 0} → (MemberRow F → Bool) → Option (MemberRow F) → Bool
holds q none = false
holds q (some r) = q r

module _ {F : Type 0} (l a : Text) (q : MemberRow F → Bool) where
  abbrev matching : MemberRow F → Bool
  matching r = has_key l a r && q r

  count-absent : (rows : List (MemberRow F)) → row_of l a rows ≡ none → count matching rows ≡ 0
  count-absent [] h = refl
  count-absent (r ∷ rows) h = ground (arith, count-absent rows)

  -- Since a key is unique, the count of its rows decides as the row does.
  pub positive-count :
      (rows : List (MemberRow F))
      → UniqueKeys rows
      → positive (count matching rows) ≡ holds q (row_of l a rows)
  positive-count [] u = refl
  positive-count (r ∷ rows) (fresh, u) = ground (
    arith,
    positive-count rows u,
    count-absent rows,
    text_beq_iff r.list l,
    text_beq_iff r.address a,
  )

positive-count_key :
    {F : Type 0} (l a : Text) (rows : List (MemberRow F))
    → positive (count (has_key l a) rows) ≡ holds (λ _. true) (row_of l a rows)
positive-count_key l a [] = refl
positive-count_key l a (r ∷ rows) = ground (arith, positive-count_key l a rows)

abbrev pub RolesAre : {F : Type 0} → Text → Text → Bool → Bool → Bool → Db F → Type 0
RolesAre l a member subscriber poster d =
    (is_member l a d ≡ member) × (is_subscriber l a d ≡ subscriber) × (is_poster l a d ≡ poster)

module _ {F : Type 0} ⦃score : Score F⦄ where
  -- In valid tables, after `add_member` every query of the three roles answers what was given for
  -- the address that was added, whatever the case of its letters and the white space around it,
  -- and answers for every other address, and on every other list, what it answered before.
  pub roles-add_member :
      (l a : Text) (s p m : Bool) (l' a' : Text) (d : Db F)
      → IsValid d
      → (let same = same_key l (normalise a) l' (normalise a') in
          RolesAre l' a'
            (if same then true else is_member l' a' d)
            (if same then s else is_subscriber l' a' d)
            (if same then p else is_poster l' a' d)
            (add_member l a s p m d))
  unfolding is_member is_subscriber is_poster add_member
  roles-add_member l a s p m l' a' d v =
      let k = normalise a in
      let k' = normalise a' in
      let rows = upsert l k s p m d.members in
      let u = upsert-UniqueKeys l k s p m d.members v.unique_members in
      let found = row_of-upsert l k s p m l' k' d.members in
      (
        ground (arith, positive-count_key l' k' rows, positive-count_key l' k' d.members, found),
        ground (
          arith,
          positive-count l' k' (λ r. r.subscribed == 1) rows u,
          positive-count l' k' (λ r. r.subscribed == 1) d.members v.unique_members,
          found,
        ),
        ground (
          arith,
          positive-count l' k' (λ r. r.poster == 1) rows u,
          positive-count l' k' (λ r. r.poster == 1) d.members v.unique_members,
          found,
        ),
      )

-- In valid tables, after `remove_member` the address that was removed has no role, and every other
-- address, and every other list, has the roles that it had.
pub roles-remove_member :
    {F : Type 0} (l a l' a' : Text) (d : Db F)
    → IsValid d
    → (let same = same_key l (normalise a) l' (normalise a') in
        RolesAre l' a'
          (if same then false else is_member l' a' d)
          (if same then false else is_subscriber l' a' d)
          (if same then false else is_poster l' a' d)
          (remove_member l a d))
unfolding is_member is_subscriber is_poster remove_member
roles-remove_member l a l' a' d v =
    let k = normalise a in
    let k' = normalise a' in
    let rows = keep (λ r. not (has_key l k r)) d.members in
    let u = keep-UniqueKeys l k d.members v.unique_members in
    let found = row_of-keep l k l' k' d.members in
    (
      ground (arith, positive-count_key l' k' rows, positive-count_key l' k' d.members, found),
      ground (
        arith,
        positive-count l' k' (λ r. r.subscribed == 1) rows u,
        positive-count l' k' (λ r. r.subscribed == 1) d.members v.unique_members,
        found,
      ),
      ground (
        arith,
        positive-count l' k' (λ r. r.poster == 1) rows u,
        positive-count l' k' (λ r. r.poster == 1) d.members v.unique_members,
        found,
      ),
    )
