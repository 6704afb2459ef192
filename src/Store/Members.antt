-- ===== src/Store/Members.antt =====
-- The row that a key selects, and what each write of the table `members` does to it.
use carriers.Base.{
  Text, Bool, not, ◌&&◌, Option, none, some, List, [], ◌∷◌, ◌==◌, nat_eq, text_eq, text_beq_iff,
  if◌then◌else◌, keep, find, arith, ◌≡◌,
}
use carriers.Store.{Score, MemberRow, has_key, with_roles, update_rows, new_member, upsert}

-- The row of `list` and `address`.
abbrev pub row_of : {F : Type 0} → Text → Text → List (MemberRow F) → Option (MemberRow F)
row_of list address rows = find (has_key list address) rows

abbrev pub same_key : Text → Text → Text → Text → Bool
same_key l a l' a' = (l == l') && (a == a')

module _ {F : Type 0} where
  abbrev pub update : (MemberRow F → MemberRow F) → Option (MemberRow F) → Option (MemberRow F)
  update f none = none
  update f (some r) = some (f r)

  pub row_of-keep :
      (l a l' a' : Text) (rows : List (MemberRow F))
      → row_of l' a' (keep (λ r. not (has_key l a r)) rows)
        ≡ (if same_key l a l' a' then none else row_of l' a' rows)
  row_of-keep l a l' a' [] = ground arith
  row_of-keep l a l' a' (r ∷ rows) = ground (
    arith,
    row_of-keep l a l' a' rows,
    text_beq_iff l l',
    text_beq_iff a a',
    text_beq_iff r.list l,
    text_beq_iff r.list l',
    text_beq_iff r.address a,
    text_beq_iff r.address a',
  )

  module _ (f : MemberRow F → MemberRow F) (same_list : (r : MemberRow F) → (f r).list ≡ r.list)
      (same_address : (r : MemberRow F) → (f r).address ≡ r.address) where
    pub row_of-update_rows :
        (l a l' a' : Text) (rows : List (MemberRow F))
        → row_of l' a' (update_rows l a f rows)
          ≡ (if same_key l a l' a' then update f (row_of l' a' rows) else row_of l' a' rows)
    row_of-update_rows l a l' a' [] = ground arith
    row_of-update_rows l a l' a' (r ∷ rows) = ground (
      arith,
      row_of-update_rows l a l' a' rows,
      same_list r,
      same_address r,
      text_beq_iff l l',
      text_beq_iff a a',
      text_beq_iff r.list l,
      text_beq_iff r.list l',
      text_beq_iff r.address a,
      text_beq_iff r.address a',
    )

module _ {F : Type 0} ⦃score : Score F⦄ (l a : Text) (s p m : Bool) where
  -- The row that an upsert leaves, from the row that was there.
  abbrev pub upserted : Option (MemberRow F) → MemberRow F
  upserted none = new_member l a s p m
  upserted (some r) = with_roles s p m r

  pub row_of-upsert :
      (l' a' : Text) (rows : List (MemberRow F))
      → row_of l' a' (upsert l a s p m rows)
        ≡ (if same_key l a l' a' then some (upserted (row_of l a rows)) else row_of l' a' rows)
  unfolding upsert
  row_of-upsert l' a' [] = ground (arith, text_beq_iff l l', text_beq_iff a a')
  row_of-upsert l' a' (r ∷ rows) = ground (
    arith,
    row_of-upsert l' a' rows,
    text_beq_iff l l',
    text_beq_iff a a',
    text_beq_iff r.list l,
    text_beq_iff r.list l',
    text_beq_iff r.address a,
    text_beq_iff r.address a',
  )
