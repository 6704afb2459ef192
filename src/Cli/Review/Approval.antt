-- ===== src/Cli/Review/Approval.antt =====
-- What becomes of a held message that is approved, `moderate` in `crates/carriers/src/main.rs`.
use carriers.Base.{
  show, ℕ, suc, ◌≤◌, ◌<◌, Text, Bytes, Bool, true, false, Option, none, some, List, [], ◌∷◌, ◌++◌,
  codes, leb, Result, ok, err, Error, pure, Fallible, yields, fails, Failure, caused, bailed,
  question, or_bail, if◌then◌else◌, ◌==◌, nat_eq, ◌⊎◌, inl, inr, arith, ◌≡◌, ◌≢◌, refl, sym, ap,
  ◌∙◌, if_taken, Bool-cases, find, text_eq, text_beq, text_beq_iff,
}
use mathlib.Core.Option
use carriers.Base
use carriers.Cli.{Screen, proceed, ◌>>=◌}
use carriers.Cli.Review.{
  ingress_of, find_held, distribute_held, conclude, approve_entry, approve_held, no_held,
}
use carriers.Deliver.Kept.{ClientKeeps, deliver-Keeps, >>=-Keeps}
use carriers.Deliver.{deliver}
use carriers.MailingList.{MailingList}
use carriers.Pipeline.{Ingress, Disposition}
use carriers.Pipeline
use carriers.Pipeline.Queueing.{Queued, finalize-Queued}
use carriers.Pipeline.Steps.{World, finalize}
use carriers.Policy.{PolicyEngine}
use carriers.SieveEngine.{Sieve}
use carriers.Smtp.{Outcome, distributed, held, dispose, distribute_approved}
use carriers.Smtp.Daemon.{Crates, platform, daemon}
use carriers.State.{AppState, list_by_name}
use carriers.Store.{Db, Score, HeldMessage, enqueue_held, get_held}
use carriers.Store.Invariant.{IsValid}
use carriers.Store.Queue.{get_held-delete_held}
use carriers.Cli.Review.Requeue.{list_by_name-name, enqueue_held-IsAdded, IsConsumed, IsReplaced}

module _ {F : Type 0} where
  module _ {Key : Type 0} ⦃score : Score F⦄ (crates : Crates F Key)
      (kept : ClientKeeps (λ (w : World F). w.db) crates.client) (sieve : Sieve)
      (policy : PolicyEngine sieve) (state : AppState F Key) where
    abbrev Distributed :
        MailingList Key → Ingress → Bytes → World F → Result Outcome × World F → Type 0
    Distributed list ingress raw w (r, w') =
        (w'.db ≡ w.db)
        ⊎ ((id : ℕ) × ((r ≡ ok (held id))
              × ((sender subject : Option Text) × (enqueue_held list.name ingress.mail_from
                      ingress.helo ingress.remote_ip sender subject raw w.now w.db
                    ≡ (ok id, w'.db)))))

    disposed :
        (list : MailingList Key) (ingress : Ingress) (raw : Bytes) (w : World F)
        (r : Result Disposition × World F)
        → Queued list ingress raw w r
        → Distributed list ingress raw w
            (Base.proceed (dispose (daemon crates sieve policy state) state list) r)
    unfolding dispose daemon
    disposed list ingress raw w (ok (Pipeline.distribute p), w') (inl (e, n)) = inl (
        >>=-Keeps (λ (w : World F). w.db)
          (deliver crates.mail_auth crates.client list state.config.smarthost p)
          (λ count. pure (distributed count))
          (deliver-Keeps (λ (w : World F). w.db) crates.mail_auth crates.client list kept
            state.config.smarthost p)
          (λ count w. refl) w'
        ∙ e)
    disposed list ingress raw w (ok (Pipeline.held id), w') (inl (e, n)) = inl e
    disposed list ingress raw w (ok (Pipeline.discarded t), w') (inl (e, n)) = inl e
    disposed list ingress raw w (ok (Pipeline.rejected t), w') (inl (e, n)) = inl e
    disposed list ingress raw w (ok (Pipeline.distribute p), w') (inr (i, (k, q))) = absurd (cc (k))
    disposed list ingress raw w (ok (Pipeline.held id), w') (inr (i, (k, q))) =
        inr (i, (let e : id ≡ i = cc (k) in rw e refl, q))
    disposed list ingress raw w (ok (Pipeline.discarded t), w') (inr (i, (k, q))) = absurd (cc (k))
    disposed list ingress raw w (ok (Pipeline.rejected t), w') (inr (i, (k, q))) = absurd (cc (k))
    disposed list ingress raw w (err x, w') (inl (e, n)) = inl e
    disposed list ingress raw w (err x, w') (inr (i, (k, q))) = absurd (cc (k))

    distribute_approved-Distributed :
        (list : MailingList Key) (ingress : Ingress) (raw : Bytes) (w : World F)
        → Distributed list ingress raw w
            (distribute_approved (daemon crates sieve policy state) state list ingress raw w)
    unfolding distribute_approved daemon
    distribute_approved-Distributed list ingress raw w =
        disposed list ingress raw w
          (finalize (platform crates sieve policy state) list ingress raw w)
          (finalize-Queued list ingress raw (platform crates sieve policy state) w)

    module _ (parse_ip : Text → Option Text) where
      -- Either the command failed and the tables are as they were, or it succeeded: the entry was there,
      -- and it is gone, alone, or in exchange for a new one.
      abbrev pub IsSafe : ℕ → Db F → Fallible (Unit {0}) × Screen (World F) → Type 0
      IsSafe id d out =
          ((e : Failure) × ((out.0 ≡ fails e) × (out.1.world.db ≡ d)))
          ⊎ ((entry : HeldMessage) × ((out.0 ≡ yields tt)
                × ((get_held id d ≡ some entry)
                    × (IsConsumed id d out.1.world.db
                        ⊎ IsReplaced id entry (ingress_of parse_ip entry) d out.1.world.db))))

      entry-IsSafe :
          (id : ℕ) (entry : HeldMessage) (list : MailingList Key) (s : Screen (World F))
          → IsValid s.world.db
          → get_held id s.world.db ≡ some entry
          → list.name ≡ entry.list
          → IsSafe id s.world.db (
              (distribute_held parse_ip (daemon crates sieve policy state) state list entry
                  >>= conclude parse_ip (daemon crates sieve policy state) state id)
                s)
      unfolding distribute_held conclude
      entry-IsSafe id entry list s v found named =
          go
            (distribute_approved (daemon crates sieve policy state) state list ingress entry.raw
              s.world)
            (distribute_approved-Distributed list ingress entry.raw s.world)
        where
          ingress : Ingress
          ingress = ingress_of parse_ip entry

          go :
              (r : Result Outcome × World F)
              → Distributed list ingress entry.raw s.world r
              → IsSafe id s.world.db (
                  proceed
                    (conclude parse_ip (daemon crates sieve policy state) state id)
                    (question r.0, record s { world = r.1 }))
          go (err x, w) (inl e) = inl (caused x, (refl, e))
          go (err x, w) (inr (i, (k, q))) = absurd (cc (k))
          go (ok o, w) (inl e) =
              inr
                (entry, (refl, (found, inl (λ i. (get_held-delete_held id i w.db).1 ∙ rw e refl))))
          go (ok o, w) (inr (new, (k, (sender, subject, q)))) =
              let (fresh, added) =
                enqueue_held-IsAdded list.name ingress sender subject s.world.now new entry
                  s.world.db w.db v named q in
              inr (
                entry,
                (
                  refl,
                  (
                    found,
                    inr (new, (fresh, λ i. (get_held-delete_held id i w.db).1 ∙ rw (added i) refl)),
                  ),
                ),
              )

      listed-IsSafe :
          (id : ℕ) (entry : HeldMessage) (s : Screen (World F))
          → IsValid s.world.db
          → get_held id s.world.db ≡ some entry
          → IsSafe id s.world.db
              (approve_entry parse_ip (daemon crates sieve policy state) state id entry s)
      unfolding approve_entry list_by_name
      listed-IsSafe id entry s v found =
          go (Option.map (λ e. e.1) (find (λ e. e.1.name == entry.list) state.lists)) refl
        where
          text : Text
          text =
              codes "list `"
              ++ entry.list
              ++ codes "` for held message "
              ++ show id
              ++ codes " is not loaded"

          go :
              (m : Option (MailingList Key))
              → Option.map (λ e. e.1) (find (λ e. e.1.name == entry.list) state.lists) ≡ m
              → IsSafe id s.world.db (
                  proceed
                    (λ list.
                      distribute_held parse_ip (daemon crates sieve policy state) state list entry
                      >>= conclude parse_ip (daemon crates sieve policy state) state id)
                    (or_bail text m, s))
          go none e = inl (bailed text, (refl, refl))
          go (some list) e =
              entry-IsSafe id entry list s v found (list_by_name-name entry.list state.lists list e)

      -- With a mail client that leaves the tables alone, and whatever the policies, lists and
      -- parsers do, `moderate approve` on valid tables either fails and leaves the tables as they
      -- were, so that the message can be approved again, or succeeds: then the message was held,
      -- afterwards its id finds nothing, and every other id finds what it found, except that the
      -- message may stand, with its list, its bytes and the envelope it had, under one id that was free;
      -- a remote address that does not parse is the local one there.
      pub approve_held-IsSafe :
          (id : ℕ) (s : Screen (World F))
          → IsValid s.world.db
          → IsSafe id s.world.db
              (approve_held parse_ip (daemon crates sieve policy state) state id s)
      unfolding approve_held find_held
      approve_held-IsSafe id s v = go (get_held id s.world.db) refl
        where
          go :
              (m : Option HeldMessage)
              → get_held id s.world.db ≡ m
              → IsSafe id s.world.db (
                  proceed
                    (approve_entry parse_ip (daemon crates sieve policy state) state id)
                    (or_bail (no_held id) m, s))
          go none e = inl (bailed (no_held id), (refl, refl))
          go (some entry) e = listed-IsSafe id entry s v e
