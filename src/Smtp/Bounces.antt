-- ===== src/Smtp/Bounces.antt =====
-- Bounces that keep coming, `handle_bounce` in `crates/carriers/src/smtp.rs`: what other writes to the
-- tables come between them does not matter.
use carriers.Base.{
  ℕ, Text, Bytes, Bool, true, false, not, Option, none, some, List, [], ◌∷◌, nat_eq, text_eq,
  text_beq_iff, if◌then◌else◌, any, all, arith, ◌≡◌, refl, sym, ap, ◌∙◌, Bool-cases, inl, inr,
}
use carriers.Bounce.{BounceKind, hard, soft, unknown, classify}
use carriers.MailingList.{MailingList, BounceConfig}
use carriers.Pipeline.Steps.{World}
use carriers.Policy.{PolicyEngine}
use carriers.SieveEngine.{Sieve}
use carriers.Smtp.{handle_bounce, weigh}
use carriers.Smtp.Daemon.{Crates, daemon}
use carriers.State.{AppState}
use carriers.Store.{
  Db, Score, MemberRow, normalise, subscribers, bounced, enabled, add_member, remove_member,
  record_bounce, enable_member, record_message, enqueue_held, delete_held,
}
use carriers.Store.Bounces.{releases}
use carriers.Store.Invariant.{
  IsValid, Write, exec, exec-IsValid, add, remove, bounce, enable, seen_message, enqueue, delete,
}
use carriers.Store.Members.{row_of, row_of-keep, row_of-update_rows, row_of-upsert, same_key}
use carriers.Store.Order.{contains}
use carriers.Store.Recipients.{subscribers_lem}

-- A message to the bounce address of the subscriber at some time, or a write to the tables.
pub data Happening (F : Type 0) : Type 0 where
  report : ℕ → Bytes → Happening F
  write : Write F → Happening F

-- A report that says that the address failed.
abbrev pub counts : BounceKind → Bool
counts hard = true
counts soft = true
counts unknown = false

module _ {F : Type 0} ⦃score : Score F⦄ where
  -- A write that neither ends the block of this key nor adds to its score.
  abbrev pub passes_by : Text → Text → Write F → Bool
  passes_by l k (bounce l' a' w t now) = not (same_key l' (normalise a') l k)
  passes_by l k w = not (releases l k w)

  abbrev pub passes : Text → Text → Happening F → Bool
  passes l k (report now raw) = true
  passes l k (write w) = passes_by l k w

  -- The score and the flag of a row after a report of this kind.
  abbrev pub raised : F → F → F × ℕ → F × ℕ
  raised threshold weight (s, x) =
      (score.add s weight, if score.at_least (score.add s weight) threshold then 1 else x)

  abbrev pub scored : BounceConfig F → BounceKind → F × ℕ → F × ℕ
  scored config hard p = raised config.threshold config.hard_weight p
  scored config soft p = raised config.threshold config.soft_weight p
  scored config unknown p = p

  abbrev pub fate : BounceConfig F → List (Happening F) → F × ℕ → F × ℕ
  fate config [] p = p
  fate config (report now raw ∷ hs) p = fate config hs (scored config (classify raw) p)
  fate config (write w ∷ hs) p = fate config hs p

  abbrev pub weighed : BounceConfig F → BounceKind → F → F
  weighed config hard s = score.add s config.hard_weight
  weighed config soft s = score.add s config.soft_weight
  weighed config unknown s = s

  -- The score after the reports: the weight of each is added.
  abbrev pub accrued : BounceConfig F → List (Happening F) → F → F
  accrued config [] s = s
  accrued config (report now raw ∷ hs) s = accrued config hs (weighed config (classify raw) s)
  accrued config (write w ∷ hs) s = accrued config hs s

  abbrev pub is_bounce : Happening F → Bool
  is_bounce (report now raw) = counts (classify raw)
  is_bounce (write w) = false

  -- What is kept of a row: its score and its flag.
  abbrev pub standing : Option (MemberRow F) → Option (F × ℕ)
  standing none = none
  standing (some r) = some (r.bounce_score, r.bounce_disabled)

  exec-standing :
      (l k : Text) (w : Write F) (q : F × ℕ) (d : Db F)
      → passes_by l k w ≡ true
      → standing (row_of l k d.members) ≡ some q
      → standing (row_of l k (exec w d).members) ≡ some q
  unfolding exec add_member remove_member record_bounce enable_member record_message enqueue_held
      delete_held
  exec-standing l k (add l' a' s p m) q d n h = ground (
    arith,
    row_of-upsert l' (normalise a') s p m l k d.members,
    text_beq_iff l' l,
    text_beq_iff (normalise a') k,
  )
  exec-standing l k (remove l' a') q d n h =
      ground (arith, row_of-keep l' (normalise a') l k d.members)
  exec-standing l k (bounce l' a' w t now) q d n h = ground (
    arith,
    row_of-update_rows (bounced w t now) (λ r. refl) (λ r. refl) l' (normalise a') l k d.members,
  )
  exec-standing l k (enable l' a') q d n h =
      ground
        (arith, row_of-update_rows enabled (λ r. refl) (λ r. refl) l' (normalise a') l k d.members)
  exec-standing l k (seen_message l' i now) q d n h = ground arith
  exec-standing l k (enqueue l' f helo ip s j raw now) q d n h = ground arith
  exec-standing l k (delete i) q d n h = h

  exec-standing_bounce :
      (l a : Text) (w t : F) (now : ℕ) (q : F × ℕ) (d : Db F)
      → standing (row_of l (normalise a) d.members) ≡ some q
      → standing (row_of l (normalise a) (exec (bounce l a w t now) d).members)
        ≡ some (raised t w q)
  unfolding exec record_bounce
  exec-standing_bounce l a w t now q d h = ground (
    arith,
    row_of-update_rows (bounced w t now) (λ r. refl) (λ r. refl) l (normalise a) l (normalise a)
        d.members,
    text_beq_iff l l,
    text_beq_iff (normalise a) (normalise a),
  )

  module _ (config : BounceConfig F) where
    scored-quiet : (kind : BounceKind) (p : F × ℕ) → counts kind ≡ false → scored config kind p ≡ p
    scored-quiet hard p n = absurd (cc)
    scored-quiet soft p n = absurd (cc)
    scored-quiet unknown p n = refl

    scored-weighed :
        (kind : BounceKind) (p : F × ℕ) → (scored config kind p).0 ≡ weighed config kind p.0
    scored-weighed hard p = refl
    scored-weighed soft p = refl
    scored-weighed unknown p = refl

    scored-flag :
        (kind : BounceKind) (p : F × ℕ)
        → counts kind ≡ true
        → score.at_least (scored config kind p).0 config.threshold ≡ true
        → (scored config kind p).1 ≡ 1
    scored-flag hard p n h = ground arith
    scored-flag soft p n h = ground arith
    scored-flag unknown p n h = absurd (cc)

    fate-quiet :
        (hs : List (Happening F)) (p : F × ℕ) → any is_bounce hs ≡ false → fate config hs p ≡ p
    fate-quiet [] p n = refl
    fate-quiet (report now raw ∷ hs) p n =
        fate-quiet hs (scored config (classify raw) p) (ground arith)
        ∙ scored-quiet (classify raw) p (ground arith)
    fate-quiet (write w ∷ hs) p n = fate-quiet hs p n

    fate-accrued :
        (hs : List (Happening F)) (p : F × ℕ) → (fate config hs p).0 ≡ accrued config hs p.0
    fate-accrued [] p = refl
    fate-accrued (report now raw ∷ hs) p =
        fate-accrued hs (scored config (classify raw) p)
        ∙ ap (accrued config hs) (scored-weighed (classify raw) p)
    fate-accrued (write w ∷ hs) p = fate-accrued hs p

    -- The flag is set by the last report that counts, if the score is past the threshold then.
    fate-decisive :
        (hs : List (Happening F)) (p : F × ℕ)
        → any is_bounce hs ≡ true
        → score.at_least (fate config hs p).0 config.threshold ≡ true
        → (fate config hs p).1 ≡ 1
    fate-decisive [] p b h = absurd (cc)
    fate-decisive (report now raw ∷ hs) p b h = elim (Bool-cases (any is_bounce hs)) [
      | inl later ↦ fate-decisive hs (scored config (classify raw) p) later h
      | inr last ↦
          let kind = classify raw in
          let quiet = fate-quiet hs (scored config kind p) last in
          ap (λ q. q.1) quiet
          ∙ scored-flag kind p (ground arith)
              (ap (λ q. score.at_least q.0 config.threshold) (sym quiet) ∙ h)
    ]
    fate-decisive (write w ∷ hs) p b h = fate-decisive hs p b h

module _ {F Key : Type 0} ⦃score : Score F⦄ (crates : Crates F Key) (sieve : Sieve)
    (policy : PolicyEngine sieve) (state : AppState F Key) (list : MailingList Key)
    (address : Text) where
  -- The daemon handles each report when it comes, and the writes come between.
  unfoldable pub arrive : Happening F → World F → World F
  unfolding handle_bounce daemon
  arrive (report now raw) w =
      (handle_bounce (daemon crates sieve policy state) state list address raw
        (record w { now = now })).1
  arrive (write e) w = record w { db = exec e w.db }

  unfoldable pub live : List (Happening F) → World F → World F
  unfolding arrive
  live [] w = w
  live (h ∷ hs) w = live hs (arrive h w)

  -- The row of the address is there, with this score and flag, in valid tables.
  abbrev Stands : F × ℕ → World F → Type 0
  Stands q w =
      IsValid w.db × (standing (row_of list.name (normalise address) w.db.members) ≡ some q)

  bounce-Stands :
      (weight : F) (now : ℕ) (q : F × ℕ) (w : World F)
      → Stands q w
      → (let threshold = state.config.bounce.threshold in
          Stands (raised threshold weight q) (record w {
            now = now;
            db = exec (bounce list.name address weight threshold now) w.db;
          }))
  bounce-Stands weight now q w (valid, row) =
      let threshold = state.config.bounce.threshold in
      (
        exec-IsValid (bounce list.name address weight threshold now) w.db valid,
        exec-standing_bounce list.name address weight threshold now q w.db row,
      )

  report-Stands :
      (now : ℕ) (raw : Bytes) (q : F × ℕ) (w : World F)
      → Stands q w
      → Stands (scored state.config.bounce (classify raw) q) (arrive (report now raw) w)
  unfolding arrive handle_bounce daemon weigh exec
  report-Stands now raw q w s = by_kind (classify raw)
    where
      by_kind :
          (kind : BounceKind)
          → Stands
              (scored state.config.bounce kind q)
              (weigh
                (daemon crates sieve policy state)
                state
                list
                address
                kind
                (record w { now = now })).1
      by_kind hard = bounce-Stands state.config.bounce.hard_weight now q w s
      by_kind soft = bounce-Stands state.config.bounce.soft_weight now q w s
      by_kind unknown = s

  live-Stands :
      (hs : List (Happening F)) (q : F × ℕ) (w : World F)
      → all (passes list.name (normalise address)) hs ≡ true
      → Stands q w
      → Stands (fate state.config.bounce hs q) (live hs w)
  unfolding live arrive exec
  live-Stands [] q w p s = s
  live-Stands (report now raw ∷ hs) q w p s =
      live-Stands hs (scored state.config.bounce (classify raw) q) (arrive (report now raw) w) p
        (report-Stands now raw q w s)
  live-Stands (write e ∷ hs) q w p (valid, row) =
      live-Stands hs q (arrive (write e) w) (ground arith) (
        exec-IsValid e w.db valid,
        exec-standing list.name (normalise address) e q w.db (ground arith) row,
      )

  -- Bounces end the delivery. The row of an address has some score in valid tables, and messages
  -- to its bounce address arrive with other writes between them, in any order: posts, holds,
  -- bounces of others and new roles of the address itself, but nothing that enables or removes it
  -- and no other record of its bounces. Once the weights of the delivery reports among the
  -- messages have carried the score to the threshold, the list's posts do not go to the address.
  pub handle_bounce-subscribers :
      (hs : List (Happening F)) (q : F × ℕ) (w : World F)
      → IsValid w.db
      → standing (row_of list.name (normalise address) w.db.members) ≡ some q
      → all (passes list.name (normalise address)) hs ≡ true
      → any is_bounce hs ≡ true
      → score.at_least (accrued state.config.bounce hs q.0) state.config.bounce.threshold ≡ true
      → contains (normalise address) (subscribers list.name (live hs w).db) ≡ false
  handle_bounce-subscribers hs q w valid row passing some_bounce reached =
      let config = state.config.bounce in
      let (valid', row') = live-Stands hs q w passing (valid, row) in
      let flag =
        fate-decisive config hs q some_bounce
          (ap (λ s. score.at_least s config.threshold) (fate-accrued config hs q) ∙ reached) in
      let out = (subscribers_lem list.name (normalise address) (live hs w).db valid').0 in
      ground (arith, out, row', flag)
