-- ===== src/Store/Bounces.antt =====
-- `record_bounce` and `enable_member`: the score of an address, and how long delivery stays off.
use carriers.Base.{
  Text, Bool, true, false, not, Option, none, some, List, [], ◌∷◌, ◌==◌, nat_eq, text_eq,
  text_beq_iff, all, arith, ◌≡◌, refl,
}
use carriers.Store.{
  Score, MemberRow, Db, normalise, add_member, remove_member, bounced, enabled, record_bounce,
  enable_member, record_message, enqueue_held, delete_held, subscribers,
}
use carriers.Store.Members.{row_of, row_of-keep, row_of-update_rows, row_of-upsert, same_key}
use carriers.Store.Invariant.{
  IsValid, Write, exec, exec-IsValid, add, remove, bounce, enable, seen_message, enqueue, delete,
}
use carriers.Store.Order.{contains}
use carriers.Store.Roles.{holds}
use carriers.Store.Recipients.{subscribers_lem}

module _ {F : Type 0} ⦃score : Score F⦄ where
  abbrev pub disabled : Option (MemberRow F) → Option Bool
  disabled none = none
  disabled (some r) = some (not (r.bounce_disabled == 0))

  -- The key's row exists, and delivery to it is disabled.
  abbrev pub is_disabled : Text → Text → Db F → Bool
  is_disabled l a d = holds (λ r. r.bounce_disabled == 1) (row_of l a d.members)

  -- `enable_member` and `remove_member` of the key are the writes that may end the block.
  abbrev pub releases : Text → Text → Write F → Bool
  releases l a (remove l' a') = same_key l' (normalise a') l a
  releases l a (enable l' a') = same_key l' (normalise a') l a
  releases l a _ = false

  abbrev pub exec_all : List (Write F) → Db F → Db F
  exec_all [] d = d
  exec_all (w ∷ ws) d = exec_all ws (exec w d)

  exec-is_disabled :
      (l a : Text) (w : Write F) (d : Db F)
      → releases l a w ≡ false
      → is_disabled l a d ≡ true
      → is_disabled l a (exec w d) ≡ true
  unfolding exec add_member remove_member record_bounce enable_member record_message enqueue_held
      delete_held
  exec-is_disabled l a (add l' a' s p m) d n h = ground (
    arith,
    row_of-upsert l' (normalise a') s p m l a d.members,
    text_beq_iff l' l,
    text_beq_iff (normalise a') a,
  )
  exec-is_disabled l a (remove l' a') d n h =
      ground (arith, row_of-keep l' (normalise a') l a d.members)
  exec-is_disabled l a (bounce l' a' w t now) d n h = ground (
    arith,
    row_of-update_rows (bounced w t now) (λ r. refl) (λ r. refl) l' (normalise a') l a d.members,
  )
  exec-is_disabled l a (enable l' a') d n h =
      ground
        (arith, row_of-update_rows enabled (λ r. refl) (λ r. refl) l' (normalise a') l a d.members)
  exec-is_disabled l a (seen_message l' i now) d n h = ground arith
  exec-is_disabled l a (enqueue l' f helo ip s j raw now) d n h = ground arith
  exec-is_disabled l a (delete i) d n h = h

  exec_all-is_disabled :
      (l a : Text) (ws : List (Write F)) (d : Db F)
      → all (λ w. not (releases l a w)) ws ≡ true
      → is_disabled l a d ≡ true
      → is_disabled l a (exec_all ws d) ≡ true
  exec_all-is_disabled l a [] d n h = h
  exec_all-is_disabled l a (w ∷ ws) d n h =
      exec_all-is_disabled l a ws (exec w d) (ground arith)
        (exec-is_disabled l a w d (ground arith) h)

  exec_all-IsValid : (ws : List (Write F)) (d : Db F) → IsValid d → IsValid (exec_all ws d)
  exec_all-IsValid [] d v = v
  exec_all-IsValid (w ∷ ws) d v = exec_all-IsValid ws (exec w d) (exec-IsValid w d v)

  -- In valid tables, once bounces have disabled an address of a list, it is not among the list's
  -- recipients after any sequence of writes that neither enables nor removes it: bounces, a second
  -- `add_member` of the same address and all other writes leave it out.
  pub subscribers_after_disabled :
      (l a : Text) (ws : List (Write F)) (d : Db F)
      → IsValid d
      → is_disabled l a d ≡ true
      → all (λ w. not (releases l a w)) ws ≡ true
      → contains a (subscribers l (exec_all ws d)) ≡ false
  subscribers_after_disabled l a ws d v h n = ground (
    arith,
    (subscribers_lem l a (exec_all ws d) (exec_all-IsValid ws d v)).0,
    exec_all-is_disabled l a ws d n h,
  )
