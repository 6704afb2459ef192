-- ===== src/Store/Recipients.antt =====
-- `subscribers`: whom a post is delivered to, and in which order.
use carriers.Base.{
  Text, Bool, false, ◌&&◌, none, List, [], ◌∷◌, map, ◌==◌, nat_eq, text_eq, text_beq_iff, keep,
  arith, ◌≡◌, refl, ◌∙◌, Bool-cases, inl, inr,
}
use carriers.Store.{MemberRow, Db, deliverable, subscribers}
use carriers.Store.Order.{
  contains, IsAscending, IsDistinct, text_leb, any-sort_by, sort-IsAscending,
}
use carriers.Store.Members.{row_of}
use carriers.Store.Roles.{holds}
use carriers.Store.Invariant.{UniqueKeys, IsValid}

module _ {F : Type 0} where
  -- The row is subscribed and not disabled.
  abbrev pub receives : MemberRow F → Bool
  receives r = (r.subscribed == 1) && (r.bounce_disabled == 0)

  abbrev addresses : Text → List (MemberRow F) → List Text
  addresses l rows = map (λ r. r.address) (keep (deliverable l) rows)

  contains-absent :
      (l a : Text) (rows : List (MemberRow F))
      → row_of l a rows ≡ none
      → contains a (addresses l rows) ≡ false
  contains-absent l a [] h = refl
  contains-absent l a (r ∷ rows) h = ground (arith, contains-absent l a rows)

  contains-addresses :
      (l a : Text) (rows : List (MemberRow F))
      → UniqueKeys rows
      → contains a (addresses l rows) ≡ holds receives (row_of l a rows)
  contains-addresses l a [] u = refl
  contains-addresses l a (r ∷ rows) (fresh, u) = ground (
    arith,
    contains-addresses l a rows u,
    contains-absent l a rows,
    text_beq_iff r.list l,
    text_beq_iff r.address a,
  )

  addresses-IsDistinct :
      (l : Text) (rows : List (MemberRow F)) → UniqueKeys rows → IsDistinct (addresses l rows)
  addresses-IsDistinct l [] u = tt
  addresses-IsDistinct l (r ∷ rows) (fresh, u) = elim (Bool-cases (deliverable l r)) [
    | inl h ↦ rw h (
      contains-absent l r.address rows (ground (arith, text_beq_iff r.list l)),
      addresses-IsDistinct l rows u,
    )
    | inr h ↦ rw h (addresses-IsDistinct l rows u)
  ]

  -- In valid tables, the recipients of a list are exactly the addresses whose row is subscribed
  -- and not disabled by bounces, in strictly ascending order, so that none is listed twice.
  pub subscribers_lem :
      (l a : Text) (d : Db F)
      → IsValid d
      → (contains a (subscribers l d) ≡ holds receives (row_of l a d.members))
        × IsAscending (subscribers l d)
  unfolding subscribers
  subscribers_lem l a d v = (
    any-sort_by text_leb (λ x. x) (λ x. x == a) (addresses l d.members)
        ∙ contains-addresses l a d.members v.unique_members,
    sort-IsAscending (addresses l d.members) (addresses-IsDistinct l d.members v.unique_members),
  )
