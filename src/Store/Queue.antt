-- ===== src/Store/Queue.antt =====
-- The moderation queue and the set of messages seen: `enqueue_held`, `get_held`, `held_messages`,
-- `delete_held`, `record_message`.
use carriers.Base.{
  ℕ, suc, ◌≤◌, ◌<◌, Text, Bytes, Bool, true, false, not, ◌&&◌, ◌||◌, Option, none, some, List, [],
  ◌∷◌, ◌++◌, ◌==◌, nat_eq, text_eq, text_beq_iff, if◌then◌else◌, find, keep, arith, ◌≡◌, ◌≢◌, refl,
  ok, err, Error, leb, if_taken, inl, inr, sym, ap,
}
use carriers.Store.{
  HeldRow, HeldMessage, Db, enqueue_held, get_held, delete_held, record_message, max_id, new_held,
  count, positive,
}
use carriers.Store.Invariant.{IsValid, Ascending, seen}

abbrev held_row : ℕ → List HeldRow → Option HeldRow
held_row id rows = find (λ r. r.id == id) rows

Ascending-le : (lo hi : ℕ) (rows : List HeldRow) → Ascending lo hi rows → lo ≤ hi
Ascending-le lo hi [] u = u
Ascending-le lo hi (r ∷ rows) (k, u) = omega (arith, Ascending-le r.id hi rows u)

-- No row has an id above the counter.
held_row-fresh :
    (lo hi id : ℕ) (rows : List HeldRow) → Ascending lo hi rows → hi < id → held_row id rows ≡ none
held_row-fresh lo hi id [] u h = refl
held_row-fresh lo hi id (r ∷ rows) (k, u) h =
    ground (arith, held_row-fresh r.id hi id rows u h, Ascending-le r.id hi rows u)

held_row-append :
    (id : ℕ) (rows : List HeldRow) (r : HeldRow)
    → held_row id rows ≡ none
    → held_row id (rows ++ r ∷ []) ≡ (if r.id == id then some r else none)
held_row-append id [] r h = refl
held_row-append id (x ∷ rows) r h = ground (arith, held_row-append id rows r)

held_row-append_old :
    (id : ℕ) (rows : List HeldRow) (r : HeldRow)
    → r.id ≢ id
    → held_row id (rows ++ r ∷ []) ≡ held_row id rows
held_row-append_old id [] r h = ground arith
held_row-append_old id (x ∷ rows) r h = ground (arith, held_row-append_old id rows r h)

held_row-keep :
    (id i : ℕ) (rows : List HeldRow)
    → held_row i (keep (λ r. not (r.id == id)) rows) ≡ (if id == i then none else held_row i rows)
held_row-keep id i [] = ground arith
held_row-keep id i (x ∷ rows) = ground (arith, held_row-keep id i rows)

abbrev is_some : {A : Type 0} → Option A → Bool
is_some none = false
is_some (some _) = true

positive-count-find :
    {A : Type 0} (p : A → Bool) (rows : List A) → positive (count p rows) ≡ is_some (find p rows)
positive-count-find p [] = refl
positive-count-find p (x ∷ rows) = ground (arith, positive-count-find p rows)

enqueue_held_lem :
    {F : Type 0} (l f helo ip : Text) (s j : Option Text) (raw : Bytes) (now : ℕ) (d : Db F)
    → d.last_id < max_id
    → (let id = suc d.last_id in
        let row = new_held id l f helo ip s j raw now in
        enqueue_held l f helo ip s j raw now d
        ≡ (ok id, record d { moderation_queue = d.moderation_queue ++ row ∷ []; last_id = id }))
unfolding enqueue_held
enqueue_held_lem l f helo ip s j raw now d room =
    let open_ : leb max_id d.last_id ≡ false = ground arith in rw open_

-- A message that cannot be queued leaves the tables alone.
pub enqueue_held-err :
    {F : Type 0} (l f helo ip : Text) (s j : Option Text) (raw : Bytes) (now : ℕ) (d d' : Db F)
    (e : Error)
    → enqueue_held l f helo ip s j raw now d ≡ (err e, d')
    → d' ≡ d
unfolding enqueue_held
enqueue_held-err l f helo ip s j raw now d d' e h =
    elim (if_taken (leb max_id d.last_id) _ _ (err e, d') h) [
      | inl (_, k) ↦ sym (ap (λ r. r.1) k)
      | inr (_, k) ↦ absurd (cc (ap (λ r. r.0) k))
    ]

pub enqueue_held-room :
    {F : Type 0} (l f helo ip : Text) (s j : Option Text) (raw : Bytes) (now id : ℕ) (d d' : Db F)
    → enqueue_held l f helo ip s j raw now d ≡ (ok id, d')
    → (d.last_id < max_id) × (suc d.last_id ≡ id)
unfolding enqueue_held
enqueue_held-room l f helo ip s j raw now id d d' h =
    elim (if_taken (leb max_id d.last_id) _ _ (ok id, d') h) [
      | inl (_, k) ↦ absurd (cc (ap (λ r. r.0) k))
      | inr (t, k) ↦ let e = ap (λ r. r.0) k in (ground (arith, t), cc (e))
    ]

-- In valid tables with room in the counter, `enqueue_held` returns an id that no message had
-- before, under which `get_held` then finds the envelope and the bytes that were given; every
-- other id finds what it found before.
pub get_held-enqueue_held :
    {F : Type 0} (l f helo ip : Text) (s j : Option Text) (raw : Bytes) (now i : ℕ) (d : Db F)
    → IsValid d
    → d.last_id < max_id
    → (let id = suc d.last_id in
        let next = enqueue_held l f helo ip s j raw now d in
        let message : HeldMessage = record {
          id = id;
          list = l;
          mail_from = f;
          helo = helo;
          remote_ip = ip;
          raw = raw;
        } in
        (next.0 ≡ ok id)
        × (get_held id d ≡ none)
        × (get_held i next.1 ≡ (if i == id then some message else get_held i d)))
unfolding get_held
get_held-enqueue_held l f helo ip s j raw now i d v room =
    let id = suc d.last_id in
    let row = new_held id l f helo ip s j raw now in
    let fresh = held_row-fresh 0 d.last_id id d.moderation_queue v.ascending (omega arith) in
    rw (enqueue_held_lem l f helo ip s j raw now d room) (
      refl,
      ground (arith, fresh),
      ground (
        arith,
        fresh,
        held_row-append i d.moderation_queue row,
        held_row-append_old i d.moderation_queue row,
      ),
    )

-- `delete_held` reports whether the id was in the queue; afterwards it finds nothing under that
-- id, and under every other id what was there before.
pub get_held-delete_held :
    {F : Type 0} (id i : ℕ) (d : Db F)
    → ((delete_held id d).0 ≡ is_some (get_held id d))
      × (get_held i (delete_held id d).1 ≡ (if id == i then none else get_held i d))
unfolding delete_held get_held
get_held-delete_held id i d = (
  ground (arith, positive-count-find (λ (r : HeldRow). r.id == id) d.moderation_queue),
  ground (arith, held_row-keep id i d.moderation_queue),
)

abbrev pub has_seen : {F : Type 0} → Text → Text → Db F → Bool
has_seen l i d = is_some (find (seen l i) d.seen_messages)

-- `record_message` answers true exactly when the pair of list and id was not recorded yet, and
-- afterwards exactly that pair is recorded besides those that were.
pub record_message_lem :
    {F : Type 0} (l i l' i' : Text) (now : ℕ) (d : Db F)
    → ((record_message l i now d).0 ≡ not (has_seen l i d))
      × (has_seen l' i' (record_message l i now d).1
          ≡ (((l == l') && (i == i')) || has_seen l' i' d))
unfolding record_message
record_message_lem l i l' i' now d =
    (ground arith, ground (arith, text_beq_iff l l', text_beq_iff i i'))
