-- ===== src/Store/Tests.antt =====
-- The theorems on the store at concrete tables.
use carriers.Base.{
  ℕ, suc, ◌+◌, Text, true, false, none, some, [], ◌∷◌, codes, leb, ◌==◌, nat_eq, text_eq, text_beq,
  if◌then◌else◌, ok, arith, ◌≡◌, refl,
}
use carriers.Store.{
  Score, Db, HeldMessage, init, add_member, record_bounce, enqueue_held, get_held, subscribers,
  normalise, is_member, is_subscriber, is_poster,
}
use carriers.Store.Invariant.{add, bounce, enqueue, IsValid, exec, init-IsValid, exec-IsValid}
use carriers.Store.Members.{row_of, same_key}
use carriers.Store.Order.{contains, IsAscending}
use carriers.Store.Roles.{holds, RolesAre, roles-add_member}
use carriers.Store.Recipients.{receives, subscribers_lem}
use carriers.Store.Bounces.{exec_all, subscribers_after_disabled}
use carriers.Store.Queue.{get_held-enqueue_held}

instance abbrev nat_score : Score ℕ
nat_score = record { zero = 0; add = λ a b. a + b; at_least = λ a b. leb b a }

abbrev ann : Text
ann = codes "ann@a.example"

abbrev dev : Text
dev = codes "dev"

-- Ann subscribes, and one post is held.
abbrev first_writes : Db ℕ
first_writes =
    exec (enqueue dev ann [] [] none none (codes "raw") 7)
      (exec (add dev ann true true false) (init ℕ))

first_writes-IsValid : IsValid first_writes
first_writes-IsValid =
    exec-IsValid (enqueue dev ann [] [] none none (codes "raw") 7)
      (exec (add dev ann true true false) (init ℕ))
      (exec-IsValid (add dev ann true true false) (init ℕ) (init-IsValid ℕ))

-- Ann's mail has bounced twice, which is enough.
abbrev disabled_writes : Db ℕ
disabled_writes = exec (bounce dev ann 3 5 9) (exec (bounce dev ann 3 5 8) first_writes)

disabled_writes-IsValid : IsValid disabled_writes
disabled_writes-IsValid =
    exec-IsValid (bounce dev ann 3 5 9) (exec (bounce dev ann 3 5 8) first_writes)
      (exec-IsValid (bounce dev ann 3 5 8) first_writes first_writes-IsValid)

exec-IsValid_example : IsValid (exec (bounce dev ann 3 5 8) first_writes)
exec-IsValid_example = exec-IsValid (bounce dev ann 3 5 8) first_writes first_writes-IsValid

subscribers_lem_example :
    (contains ann (subscribers dev first_writes)
      ≡ holds receives (row_of dev ann first_writes.members))
    × IsAscending (subscribers dev first_writes)
subscribers_lem_example = subscribers_lem dev ann first_writes first_writes-IsValid

roles-add_member_example :
    (let same = same_key dev (normalise (codes " ANN@a.example ")) dev (normalise ann) in
      RolesAre dev ann
        (if same then true else is_member dev ann first_writes)
        (if same then false else is_subscriber dev ann first_writes)
        (if same then true else is_poster dev ann first_writes)
        (add_member dev (codes " ANN@a.example ") false true false first_writes))
roles-add_member_example =
    roles-add_member dev (codes " ANN@a.example ") false true false dev ann first_writes
      first_writes-IsValid

subscribers_after_disabled_example :
    contains ann (
      subscribers dev
        (exec_all (add dev ann true false false ∷ bounce dev ann 1 5 10 ∷ []) disabled_writes))
    ≡ false
unfolding exec add_member record_bounce enqueue_held text_beq normalise
subscribers_after_disabled_example =
    subscribers_after_disabled dev ann (add dev ann true false false ∷ bounce dev ann 1 5 10 ∷ [])
      disabled_writes disabled_writes-IsValid refl refl

get_held-enqueue_held_example :
    (let id = suc first_writes.last_id in
      let next = enqueue_held dev ann [] [] none none [] 9 first_writes in
      let message : HeldMessage = record {
        id = id;
        list = dev;
        mail_from = ann;
        helo = [];
        remote_ip = [];
        raw = [];
      } in
      (next.0 ≡ ok id)
      × (get_held id first_writes ≡ none)
      × (get_held 1 next.1 ≡ (if 1 == id then some message else get_held 1 first_writes)))
unfolding exec enqueue_held add_member
get_held-enqueue_held_example =
    get_held-enqueue_held dev ann [] [] none none [] 9 1 first_writes first_writes-IsValid
      (omega arith)
