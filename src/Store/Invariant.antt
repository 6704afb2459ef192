-- ===== src/Store/Invariant.antt =====
-- The constraints of the schema: primary keys are unique, flags are 0 or 1, and queue ids ascend
-- and never pass the counter of AUTOINCREMENT. Every method that writes keeps them.
use carriers.Base.{
  ℕ, suc, ◌≤◌, ◌<◌, Text, Bytes, Bool, not, ◌&&◌, Option, none, List, [], ◌∷◌, ◌++◌, ◌==◌, nat_eq,
  text_eq, text_beq_iff, keep, find, All, arith, ◌≡◌, refl, Option-cases, inl, inr, Bool-cases, leb,
}
use carriers.Store.{
  Score, MemberRow, SeenRow, HeldRow, Db, has_key, update_rows, upsert, normalise, bounced, enabled,
  add_member, remove_member, record_bounce, enable_member, record_message, enqueue_held,
  delete_held, max_id, init,
}
use carriers.Store.Members.{row_of, row_of-keep, row_of-update_rows, row_of-upsert}

abbrev pub UniqueKeys : {F : Type 0} → List (MemberRow F) → Type 0
UniqueKeys [] = Unit
UniqueKeys (r ∷ rows) = (row_of r.list r.address rows ≡ none) × UniqueKeys rows

abbrev pub IsFlagged : {F : Type 0} → MemberRow F → Type 0
IsFlagged r = (r.subscribed ≤ 1) × (r.poster ≤ 1) × (r.moderator ≤ 1) × (r.bounce_disabled ≤ 1)

abbrev pub seen : Text → Text → SeenRow → Bool
seen list message_id r = (r.list == list) && (r.message_id == message_id)

abbrev pub UniqueIds : List SeenRow → Type 0
UniqueIds [] = Unit
UniqueIds (r ∷ rows) = (find (seen r.list r.message_id) rows ≡ none) × UniqueIds rows

-- The ids ascend strictly from above `lo` to `hi` at most.
abbrev pub Ascending : ℕ → ℕ → List HeldRow → Type 0
Ascending lo hi [] = lo ≤ hi
Ascending lo hi (r ∷ rows) = (lo < r.id) × Ascending r.id hi rows

pub record IsValid {F : Type 0} (s : Db F) : Type 0 where
  pub unique_members : UniqueKeys s.members
  pub flags : All IsFlagged s.members
  pub unique_seen : UniqueIds s.seen_messages
  pub ascending : Ascending 0 s.last_id s.moderation_queue
  pub in_range : s.last_id ≤ max_id

pub data Write (F : Type 0) : Type 0 where
  add : Text → Text → Bool → Bool → Bool → Write F
  remove : Text → Text → Write F
  bounce : Text → Text → F → F → ℕ → Write F
  enable : Text → Text → Write F
  seen_message : Text → Text → ℕ → Write F
  enqueue : Text → Text → Text → Text → Option Text → Option Text → Bytes → ℕ → Write F
  delete : ℕ → Write F

module _ {F : Type 0} ⦃score : Score F⦄ where
  -- The tables after a method of the store that writes.
  unfoldable pub exec : Write F → Db F → Db F
  exec (add l a s p m) d = add_member l a s p m d
  exec (remove l a) d = remove_member l a d
  exec (bounce l a w t now) d = (record_bounce l a w t now d).1
  exec (enable l a) d = (enable_member l a d).1
  exec (seen_message l i now) d = (record_message l i now d).1
  exec (enqueue l f h ip s j raw now) d = (enqueue_held l f h ip s j raw now d).1
  exec (delete i) d = (delete_held i d).1

  pub upsert-UniqueKeys :
      (l a : Text) (s p m : Bool) (rows : List (MemberRow F))
      → UniqueKeys rows
      → UniqueKeys (upsert l a s p m rows)
  unfolding upsert
  upsert-UniqueKeys l a s p m [] u = (refl, tt)
  upsert-UniqueKeys l a s p m (r ∷ rows) (fresh, u) = ground (
    arith,
    upsert-UniqueKeys l a s p m rows u,
    row_of-upsert l a s p m r.list r.address rows,
    text_beq_iff l r.list,
    text_beq_iff a r.address,
    text_beq_iff r.list l,
    text_beq_iff r.address a,
  )

  upsert-flags :
      (l a : Text) (s p m : Bool) (rows : List (MemberRow F))
      → All IsFlagged rows
      → All IsFlagged (upsert l a s p m rows)
  unfolding upsert
  upsert-flags l a s p m [] u = ground arith
  upsert-flags l a s p m (r ∷ rows) (h, u) = ground (arith, upsert-flags l a s p m rows u)

pub keep-UniqueKeys :
    {F : Type 0} (l a : Text) (rows : List (MemberRow F))
    → UniqueKeys rows
    → UniqueKeys (keep (λ r. not (has_key l a r)) rows)
keep-UniqueKeys l a [] u = tt
keep-UniqueKeys l a (r ∷ rows) (fresh, u) =
    ground (arith, keep-UniqueKeys l a rows u, row_of-keep l a r.list r.address rows)

keep-flags :
    {F : Type 0} (l a : Text) (rows : List (MemberRow F))
    → All IsFlagged rows
    → All IsFlagged (keep (λ r. not (has_key l a r)) rows)
keep-flags l a [] u = tt
keep-flags l a (r ∷ rows) (h, u) = ground (arith, keep-flags l a rows u)

module _ {F : Type 0} (f : MemberRow F → MemberRow F)
    (same_list : (r : MemberRow F) → (f r).list ≡ r.list)
    (same_address : (r : MemberRow F) → (f r).address ≡ r.address) where
  pub update_rows-UniqueKeys :
      (l a : Text) (rows : List (MemberRow F))
      → UniqueKeys rows
      → UniqueKeys (update_rows l a f rows)
  update_rows-UniqueKeys l a [] u = tt
  update_rows-UniqueKeys l a (r ∷ rows) (fresh, u) = ground (
    arith,
    update_rows-UniqueKeys l a rows u,
    same_list r,
    same_address r,
    row_of-update_rows f same_list same_address l a r.list r.address rows,
  )

  update_rows-flags :
      (l a : Text) (rows : List (MemberRow F))
      → ((r : MemberRow F) → IsFlagged r → IsFlagged (f r))
      → All IsFlagged rows
      → All IsFlagged (update_rows l a f rows)
  update_rows-flags l a [] k u = tt
  update_rows-flags l a (r ∷ rows) k (h, u) = ground (arith, update_rows-flags l a rows k u, k r h)

Ascending-append :
    (lo hi : ℕ) (rows : List HeldRow) (r : HeldRow)
    → Ascending lo hi rows
    → r.id ≡ suc hi
    → Ascending lo (suc hi) (rows ++ r ∷ [])
Ascending-append lo hi [] r h e = omega arith
Ascending-append lo hi (x ∷ rows) r (h, k) e = (h, Ascending-append x.id hi rows r k e)

Ascending-weaken :
    (lo lo' hi : ℕ) (rows : List HeldRow) → lo' ≤ lo → Ascending lo hi rows → Ascending lo' hi rows
Ascending-weaken lo lo' hi [] le h = omega arith
Ascending-weaken lo lo' hi (x ∷ rows) le (h, k) = (omega arith, k)

Ascending-keep :
    (lo hi : ℕ) (p : HeldRow → Bool) (rows : List HeldRow)
    → Ascending lo hi rows
    → Ascending lo hi (keep p rows)
Ascending-keep lo hi p [] h = h
Ascending-keep lo hi p (x ∷ rows) (h, k) = ground (
  arith,
  Ascending-keep x.id hi p rows k,
  Ascending-keep lo hi p rows (Ascending-weaken x.id lo hi rows (omega arith) k),
)

pub init-IsValid : (F : Type 0) → IsValid (init F)
init-IsValid F = record {
  unique_members = tt;
  flags = tt;
  unique_seen = tt;
  ascending = omega arith;
  in_range = omega arith;
}

module _ {F : Type 0} ⦃score : Score F⦄ where
  add-IsValid :
      (l a : Text) (s p m : Bool) (d : Db F) → IsValid d → IsValid (add_member l a s p m d)
  unfolding add_member
  add-IsValid l a s p m d v = record {
    unique_members = upsert-UniqueKeys l (normalise a) s p m d.members v.unique_members;
    flags = upsert-flags l (normalise a) s p m d.members v.flags;
    unique_seen = v.unique_seen;
    ascending = v.ascending;
    in_range = v.in_range;
  }

  remove-IsValid : (l a : Text) (d : Db F) → IsValid d → IsValid (remove_member l a d)
  unfolding remove_member
  remove-IsValid l a d v = record {
    unique_members = keep-UniqueKeys l (normalise a) d.members v.unique_members;
    flags = keep-flags l (normalise a) d.members v.flags;
    unique_seen = v.unique_seen;
    ascending = v.ascending;
    in_range = v.in_range;
  }

  bounced-IsFlagged :
      (w t : F) (now : ℕ) (r : MemberRow F) → IsFlagged r → IsFlagged (bounced w t now r)
  bounced-IsFlagged w t now r h = ground arith

  bounce-IsValid :
      (l a : Text) (w t : F) (now : ℕ) (d : Db F)
      → IsValid d
      → IsValid (record_bounce l a w t now d).1
  unfolding record_bounce
  bounce-IsValid l a w t now d v = record {
    unique_members =
        update_rows-UniqueKeys (bounced w t now) (λ r. refl) (λ r. refl) l (normalise a) d.members
          v.unique_members;
    flags =
        update_rows-flags (bounced w t now) (λ r. refl) (λ r. refl) l (normalise a) d.members
          (bounced-IsFlagged w t now) v.flags;
    unique_seen = v.unique_seen;
    ascending = v.ascending;
    in_range = v.in_range;
  }

  enable-IsValid : (l a : Text) (d : Db F) → IsValid d → IsValid (enable_member l a d).1
  unfolding enable_member
  enable-IsValid l a d v = record {
    unique_members =
        update_rows-UniqueKeys enabled (λ r. refl) (λ r. refl) l (normalise a) d.members
          v.unique_members;
    flags =
        update_rows-flags enabled (λ r. refl) (λ r. refl) l (normalise a) d.members
          (λ r h. (h.0, h.1, h.2, omega arith)) v.flags;
    unique_seen = v.unique_seen;
    ascending = v.ascending;
    in_range = v.in_range;
  }

seen-IsValid :
    {F : Type 0} (l i : Text) (now : ℕ) (d : Db F)
    → IsValid d
    → IsValid (record_message l i now d).1
unfolding record_message
seen-IsValid l i now d v = elim (Option-cases (find (seen l i) d.seen_messages)) [
  | inl new ↦
      rw (new, record_message)
        (record {
          unique_members = v.unique_members;
          flags = v.flags;
          unique_seen = (new, v.unique_seen);
          ascending = v.ascending;
          in_range = v.in_range;
        })
  | inr (_, old) ↦ rw (old, record_message) v
]

enqueue-IsValid :
    {F : Type 0} (l f h ip : Text) (s j : Option Text) (raw : Bytes) (now : ℕ) (d : Db F)
    → IsValid d
    → IsValid (enqueue_held l f h ip s j raw now d).1
unfolding enqueue_held
enqueue-IsValid l f h ip s j raw now d v = elim (Bool-cases (leb max_id d.last_id)) [
  | inl full ↦ rw full v
  | inr room ↦ rw room (record {
    unique_members = v.unique_members;
    flags = v.flags;
    unique_seen = v.unique_seen;
    ascending = Ascending-append 0 d.last_id d.moderation_queue _ v.ascending refl;
    in_range = ground arith;
  })
]

delete-IsValid : {F : Type 0} (i : ℕ) (d : Db F) → IsValid d → IsValid (delete_held i d).1
unfolding delete_held
delete-IsValid i d v = record {
  unique_members = v.unique_members;
  flags = v.flags;
  unique_seen = v.unique_seen;
  ascending = Ascending-keep 0 d.last_id _ d.moderation_queue v.ascending;
  in_range = v.in_range;
}

module _ {F : Type 0} ⦃score : Score F⦄ where
  -- Every method of the store that writes, run on tables that meet the constraints of the schema,
  -- leaves tables that meet them: primary keys stay unique, flags stay 0 or 1, and the ids of the
  -- queue ascend strictly up to the counter, which stays within an `i64`.
  pub exec-IsValid : (w : Write F) (d : Db F) → IsValid d → IsValid (exec w d)
  unfolding exec
  exec-IsValid (add l a s p m) d v = add-IsValid l a s p m d v
  exec-IsValid (remove l a) d v = remove-IsValid l a d v
  exec-IsValid (bounce l a w t now) d v = bounce-IsValid l a w t now d v
  exec-IsValid (enable l a) d v = enable-IsValid l a d v
  exec-IsValid (seen_message l i now) d v = seen-IsValid l i now d v
  exec-IsValid (enqueue l f h ip s j raw now) d v = enqueue-IsValid l f h ip s j raw now d v
  exec-IsValid (delete i) d v = delete-IsValid i d v
