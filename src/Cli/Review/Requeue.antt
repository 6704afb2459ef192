-- ===== src/Cli/Review/Requeue.antt =====
-- The queue around the approval of a message, `moderate` in `crates/carriers/src/main.rs`.
use carriers.Base.{
  ℕ, Text, Option, none, some, List, [], ◌∷◌, ok, if◌then◌else◌, ◌==◌, nat_eq, inl, inr, arith, ◌≡◌,
  sym, ap, ◌∙◌, Bool-cases, find, text_eq, text_beq_iff,
}
use mathlib.Core.Option
use carriers.Cli.Review.{}
use carriers.MailingList.{MailingList}
use carriers.Pipeline.{Ingress}
use carriers.Store.{Db, HeldMessage, enqueue_held, get_held}
use carriers.Store.Invariant.{IsValid}
use carriers.Store.Queue.{enqueue_held-room, get_held-enqueue_held}

abbrev pub requeued : ℕ → Ingress → HeldMessage → HeldMessage
requeued new ingress entry = record {
  id = new;
  list = entry.list;
  mail_from = ingress.mail_from;
  helo = ingress.helo;
  remote_ip = ingress.remote_ip;
  raw = entry.raw;
}

pub list_by_name-name :
    {Key : Type 0} (name : Text) (lists : List (Text × MailingList Key)) (list : MailingList Key)
    → Option.map (λ e. e.1) (find (λ e. e.1.name == name) lists) ≡ some list
    → list.name ≡ name
list_by_name-name name [] list h = absurd (cc)
list_by_name-name name ((k, l) ∷ lists) list h = elim (Bool-cases (l.name == name)) [
  | inl here ↦
      let same : l ≡ list = ground arith in
      ap (λ l. l.name) (sym same) ∙ (text_beq_iff l.name name).0 here
  | inr later ↦ list_by_name-name name lists list (ground arith)
]

module _ {F : Type 0} where
  -- The queue before and after a message was queued under a new id.
  abbrev pub IsAdded : ℕ → HeldMessage → Db F → Db F → Type 0
  IsAdded new message d d' =
      (get_held new d ≡ none)
      × ((i : ℕ) → get_held i d' ≡ (if i == new then some message else get_held i d))

  pub enqueue_held-IsAdded :
      (list : Text) (ingress : Ingress) (sender subject : Option Text) (now new : ℕ)
      (entry : HeldMessage) (d d' : Db F)
      → IsValid d
      → list ≡ entry.list
      → enqueue_held list ingress.mail_from ingress.helo ingress.remote_ip sender subject entry.raw
          now d
        ≡ (ok new, d')
      → IsAdded new (requeued new ingress entry) d d'
  enqueue_held-IsAdded list ingress sender subject now new entry d d' v same h =
      let (room, id) =
        enqueue_held-room list ingress.mail_from ingress.helo ingress.remote_ip sender subject
          entry.raw now new d d' h in
      let found = λ (i : ℕ).
        get_held-enqueue_held list ingress.mail_from ingress.helo ingress.remote_ip sender subject
          entry.raw now i d v room in
      rw (← id, ← same, ← ap (λ r. r.1) h) ((found 0).1, λ i. (found i).2)

  -- What an approval makes of the queue: the entry is gone, and every other is as before, beside the
  -- one that holds the message anew, if it does.
  abbrev pub IsConsumed : ℕ → Db F → Db F → Type 0
  IsConsumed id d d' = (i : ℕ) → get_held i d' ≡ (if id == i then none else get_held i d)

  abbrev pub IsReplaced : ℕ → HeldMessage → Ingress → Db F → Db F → Type 0
  IsReplaced id entry ingress d d' =
      (new : ℕ) × ((get_held new d ≡ none)
        × ((i : ℕ)
            → get_held i d' ≡ (
                if id == i
                then none
                else if i == new
                then some (requeued new ingress entry)
                else get_held i d)))
