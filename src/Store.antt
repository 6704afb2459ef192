-- ===== src/Store.antt =====
-- `crates/carriers-core/src/store.rs` and the tables of `crates/carriers-core/migrations`: each
-- method as the effect of its SQL statement on the tables. A write takes the time that
-- `strftime('%s','now')` reads. The columns that hold flags are the integers that SQLite stores.
pub mod Order
pub mod Members
pub mod Invariant
pub mod Roles
pub mod Recipients
pub mod Bounces
pub mod Queue
mod Tests
use mathlib.Core.Option
use carriers.Base.{
  ℕ, suc, ◌+◌, ◌-◌, ◌^◌, Text, Bytes, Bool, true, false, not, ◌&&◌, Option, none, some, List, [],
  ◌∷◌, ◌++◌, map, ltb, leb, ◌==◌, nat_eq, text_eq, text_beq, if◌then◌else◌, keep, find,
  to_ascii_lowercase, trim, codes, Result, ok, err, Error, db, lower,
}
use Order.{sort_by, text_leb}

-- `f64` scores: the three operations on them that SQL uses. `at_least a b` is `a >= b`.
pub record Score (F : Type 0) : Type 0 where
  pub zero : F
  pub add : F → F → F
  pub at_least : F → F → Bool

pub record MemberRow (F : Type 0) : Type 0 where
  pub list : Text
  pub address : Text
  pub subscribed : ℕ
  pub poster : ℕ
  pub moderator : ℕ
  pub bounce_score : F
  pub bounce_disabled : ℕ
  pub last_bounce_at : Option ℕ

pub record SeenRow : Type 0 where
  pub list : Text
  pub message_id : Text
  pub seen_at : ℕ

pub record HeldRow : Type 0 where
  pub id : ℕ
  pub list : Text
  pub mail_from : Text
  pub helo : Text
  pub remote_ip : Text
  pub sender : Option Text
  pub subject : Option Text
  pub raw : Bytes
  pub received_at : ℕ

-- `last_id` is the entry of `moderation_queue` in `sqlite_sequence`, which AUTOINCREMENT keeps.
pub record Db (F : Type 0) : Type 0 where
  pub members : List (MemberRow F)
  pub seen_messages : List SeenRow
  pub moderation_queue : List HeldRow
  pub last_id : ℕ

pub record Member (F : Type 0) : Type 0 where
  pub address : Text
  pub subscribed : Bool
  pub poster : Bool
  pub moderator : Bool
  pub bounce_score : F
  pub bounce_disabled : Bool

pub record HeldSummary : Type 0 where
  pub id : ℕ
  pub list : Text
  pub sender : Option Text
  pub subject : Option Text
  pub received_at : ℕ

pub record HeldMessage : Type 0 where
  pub id : ℕ
  pub list : Text
  pub mail_from : Text
  pub helo : Text
  pub remote_ip : Text
  pub raw : Bytes

-- The database that the migrations create.
abbrev pub init : (F : Type 0) → Db F
init F = record { members = []; seen_messages = []; moderation_queue = []; last_id = 0 }

-- `address.trim().to_ascii_lowercase()`
unfoldable pub normalise : Text → Text
unfolding trim lower
normalise address = to_ascii_lowercase (trim address)

-- `b as i64`
abbrev pub as_i64 : Bool → ℕ
as_i64 b = if b then 1 else 0

-- `SELECT COUNT(*)`
abbrev pub count {ℓ} : {A : Type ℓ} → (A → Bool) → List A → ℕ
count p [] = 0
count p (x ∷ xs) = if p x then suc (count p xs) else count p xs

abbrev pub positive : ℕ → Bool
positive n = ltb 0 n

module _ {F : Type 0} where
  -- `WHERE list = ? AND address = ?`
  abbrev pub has_key : Text → Text → MemberRow F → Bool
  has_key list address r = (r.list == list) && (r.address == address)

  -- `DO UPDATE SET` of the three roles
  abbrev pub with_roles : Bool → Bool → Bool → MemberRow F → MemberRow F
  with_roles subscribed poster moderator r = record r {
    subscribed = as_i64 subscribed;
    poster = as_i64 poster;
    moderator = as_i64 moderator;
  }

  -- `UPDATE … WHERE list = ? AND address = ?`
  abbrev pub update_rows :
      Text → Text → (MemberRow F → MemberRow F) → List (MemberRow F) → List (MemberRow F)
  update_rows list address f [] = []
  update_rows list address f (r ∷ rs) =
      (if has_key list address r then f r else r) ∷ update_rows list address f rs

  unfoldable pub remove_member : Text → Text → Db F → Db F
  remove_member list address s = record s {
    members = keep (λ r. not (has_key list (normalise address) r)) s.members;
  }

  unfoldable pub is_member : Text → Text → Db F → Bool
  is_member list address s = positive (count (has_key list (normalise address)) s.members)

  unfoldable pub is_subscriber : Text → Text → Db F → Bool
  is_subscriber list address s =
      positive (count (λ r. has_key list (normalise address) r && (r.subscribed == 1)) s.members)

  unfoldable pub is_poster : Text → Text → Db F → Bool
  is_poster list address s =
      positive (count (λ r. has_key list (normalise address) r && (r.poster == 1)) s.members)

  -- `WHERE list = ? AND subscribed = 1 AND bounce_disabled = 0`
  abbrev pub deliverable : Text → MemberRow F → Bool
  deliverable list r = (r.list == list) && (r.subscribed == 1) && (r.bounce_disabled == 0)

  unfoldable pub subscribers : Text → Db F → List Text
  unfolding sort_by text_leb
  subscribers list s =
      sort_by text_leb (λ a. a) (map (λ r. r.address) (keep (deliverable list) s.members))

  abbrev pub to_member : MemberRow F → Member F
  to_member r = record {
    address = r.address;
    subscribed = not (r.subscribed == 0);
    poster = not (r.poster == 0);
    moderator = not (r.moderator == 0);
    bounce_score = r.bounce_score;
    bounce_disabled = not (r.bounce_disabled == 0);
  }

  unfoldable pub all_members : Text → Db F → List (Member F)
  unfolding sort_by text_leb
  all_members list s =
      map to_member (sort_by text_leb (λ r. r.address) (keep (λ r. r.list == list) s.members))

-- True if the pair was newly inserted.
unfoldable pub record_message : {F : Type 0} → Text → Text → ℕ → Db F → Bool × Db F
record_message list message_id now s =
    elim (find (λ r. (r.list == list) && (r.message_id == message_id)) s.seen_messages) [
      | some _ ↦ (false, s)
      | none ↦
          let row : SeenRow = record { list = list; message_id = message_id; seen_at = now } in
          (true, record s { seen_messages = row ∷ s.seen_messages })
    ]

-- The largest `i64`, after which AUTOINCREMENT refuses to insert.
abbrev pub max_id : ℕ
max_id = 2 ^ 63 - 1

-- The row that `INSERT` adds.
abbrev pub new_held :
    ℕ → Text → Text → Text → Text → Option Text → Option Text → Bytes → ℕ → HeldRow
new_held id list mail_from helo remote_ip sender subject raw now = record {
  id = id;
  list = list;
  mail_from = mail_from;
  helo = helo;
  remote_ip = remote_ip;
  sender = sender;
  subject = subject;
  raw = raw;
  received_at = now;
}

unfoldable pub enqueue_held :
    {F : Type 0}
    → Text
    → Text
    → Text
    → Text
    → Option Text
    → Option Text
    → Bytes
    → ℕ
    → Db F
    → Result ℕ × Db F
enqueue_held list mail_from helo remote_ip sender subject raw now s =
    if leb max_id s.last_id
    then (err (db (codes "database or disk is full")), s)
    else let id = suc s.last_id in
      let row = new_held id list mail_from helo remote_ip sender subject raw now in
      (ok id, record s { moderation_queue = s.moderation_queue ++ row ∷ []; last_id = id })

abbrev pub to_summary : HeldRow → HeldSummary
to_summary r = record {
  id = r.id;
  list = r.list;
  sender = r.sender;
  subject = r.subject;
  received_at = r.received_at;
}

abbrev pub to_message : HeldRow → HeldMessage
to_message r = record {
  id = r.id;
  list = r.list;
  mail_from = r.mail_from;
  helo = r.helo;
  remote_ip = r.remote_ip;
  raw = r.raw;
}

unfoldable pub held_messages : {F : Type 0} → Option Text → Db F → List HeldSummary
held_messages (some list) s =
    map to_summary (sort_by leb (λ r. r.id) (keep (λ r. r.list == list) s.moderation_queue))
held_messages none s = map to_summary (sort_by leb (λ r. r.id) s.moderation_queue)

unfoldable pub get_held : {F : Type 0} → ℕ → Db F → Option HeldMessage
get_held id s = Option.map to_message (find (λ r. r.id == id) s.moderation_queue)

-- True if a row was deleted.
unfoldable pub delete_held : {F : Type 0} → ℕ → Db F → Bool × Db F
delete_held id s = (
  positive (count (λ r. r.id == id) s.moderation_queue),
  record s { moderation_queue = keep (λ r. not (r.id == id)) s.moderation_queue },
)

module _ {F : Type 0} ⦃score : Score F⦄ where
  -- The row that `INSERT` adds, with the defaults of the migrations.
  abbrev pub new_member : Text → Text → Bool → Bool → Bool → MemberRow F
  new_member list address subscribed poster moderator = record {
    list = list;
    address = address;
    subscribed = as_i64 subscribed;
    poster = as_i64 poster;
    moderator = as_i64 moderator;
    bounce_score = score.zero;
    bounce_disabled = 0;
    last_bounce_at = none;
  }

  -- `INSERT … ON CONFLICT(list, address) DO UPDATE SET …`
  unfoldable pub upsert : Text → Text → Bool → Bool → Bool → List (MemberRow F) → List (MemberRow F)
  upsert list address subscribed poster moderator [] =
      new_member list address subscribed poster moderator ∷ []
  upsert list address subscribed poster moderator (r ∷ rs) =
      if has_key list address r
      then with_roles subscribed poster moderator r ∷ rs
      else r ∷ upsert list address subscribed poster moderator rs

  unfoldable pub add_member : Text → Text → Bool → Bool → Bool → Db F → Db F
  unfolding upsert
  add_member list address subscribed poster moderator s = record s {
    members = upsert list (normalise address) subscribed poster moderator s.members;
  }

  -- The `SET` of `record_bounce`; each expression reads the row as it was.
  abbrev pub bounced : F → F → ℕ → MemberRow F → MemberRow F
  bounced weight threshold now r = record r {
    bounce_score = score.add r.bounce_score weight;
    last_bounce_at = some now;
    bounce_disabled =
        if score.at_least (score.add r.bounce_score weight) threshold then 1 else r.bounce_disabled;
  }

  -- The result is the first row that `RETURNING` gives.
  unfoldable pub record_bounce : Text → Text → F → F → ℕ → Db F → Option Bool × Db F
  record_bounce list address weight threshold now s =
      let key = normalise address in
      let rows = update_rows list key (bounced weight threshold now) s.members in
      (
        Option.map (λ r. not (r.bounce_disabled == 0)) (find (has_key list key) rows),
        record s { members = rows },
      )

  abbrev pub enabled : MemberRow F → MemberRow F
  enabled r = record r { bounce_score = score.zero; bounce_disabled = 0; last_bounce_at = none }

  -- True if a row was changed.
  unfoldable pub enable_member : Text → Text → Db F → Bool × Db F
  enable_member list address s =
      let key = normalise address in
      (
        positive (count (has_key list key) s.members),
        record s { members = update_rows list key enabled s.members },
      )
