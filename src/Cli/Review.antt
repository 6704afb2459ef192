-- ===== src/Cli/Review.antt =====
-- `moderate` in `crates/carriers/src/main.rs`: the review of the messages that are held.
pub mod Requeue
pub mod Approval
use carriers.Base.{
  show, digits, ℕ, zero, suc, ◌+◌, ◌/◌, ◌%◌, Text, Bytes, Bool, true, false, Option, none, some,
  List, [], ◌∷◌, ◌++◌, codes, ltb, if◌then◌else◌, Result, ok, err, Fallible, yields, fails,
  question, with_context, or_bail, bail,
}
use carriers.Base.Maybe.{unwrap_or}
use carriers.Cli.{Screen, Command, pure, try_, ◌>>=◌, ◌>>◌, say, act, attempt}
use carriers.MailingList.{Config, MailingList}
use carriers.Pipeline.{Ingress}
use carriers.Pipeline.Steps.{World}
use carriers.Policy.{PolicyEngine}
use carriers.SieveEngine.{Sieve}
use carriers.Smtp.{Services, Outcome, distributed, held, discarded, rejected, distribute_approved}
use carriers.State.{AppState, list_by_name}
use carriers.Store.{Db, HeldSummary, HeldMessage, held_messages, get_held, delete_held}

abbrev pub no_held : ℕ → Text
no_held id = codes "no held message with id " ++ show id

-- `println!` of one row, with tabs.
abbrev pub held_line : HeldSummary → Text
held_line h =
    show h.id
    ++ codes "\t"
    ++ h.list
    ++ codes "\t"
    ++ unwrap_or h.sender (codes "-")
    ++ codes "\t"
    ++ unwrap_or h.subject (codes "(no subject)")

abbrev pub outcome_line : ℕ → Outcome → Text
outcome_line id (distributed count) =
    codes "approved " ++ show id ++ codes ": distributed to " ++ show count ++ codes " recipient(s)"
outcome_line id (held new_id) =
    codes "approved "
    ++ show id
    ++ codes ": re-held for moderation by after-policy as "
    ++ show new_id
outcome_line id (discarded reason) =
    codes "approved " ++ show id ++ codes ": discarded by after-policy (" ++ reason ++ codes ")"
outcome_line id (rejected reason) =
    codes "approved " ++ show id ++ codes ": rejected by after-policy (" ++ reason ++ codes ")"

-- The connection that a message came from, as it was kept.
abbrev pub ingress_of : (Text → Option Text) → HeldMessage → Ingress
ingress_of parse_ip entry = record {
  remote_ip = unwrap_or (parse_ip entry.remote_ip) (codes "127.0.0.1");
  helo = entry.helo;
  mail_from = entry.mail_from;
}

module _ {F : Type 0} where
  -- An operation on the tables.
  abbrev pub on_db : {A : Type 0} → (Db F → A × Db F) → Command (World F) A
  on_db f = act (λ w. let (a, db) = f w.db in (a, record w { db = db }))

  -- The connection to the tables that `Store::open` gives.
  abbrev pub use_store : Db F → Command (World F) (Unit {0})
  use_store db = on_db (λ _. (tt, db))

  unfoldable pub find_held : ℕ → Command (World F) HeldMessage
  unfolding get_held digits
  find_held id s = (or_bail (no_held id) (get_held id s.world.db), s)

  unfoldable pub say_held : List HeldSummary → Command (World F) (Unit {0})
  unfolding digits
  say_held [] = pure tt
  say_held (h ∷ hs) = say (held_line h) >> say_held hs

  -- `moderate list`
  unfoldable pub list_held : Option Text → Command (World F) (Unit {0})
  unfolding say_held held_messages
  list_held list = do rows ← on_db (λ db. (held_messages list db, db)); say_held rows

  -- `moderate show`: the bytes are printed as they are.
  unfoldable pub show_held : ℕ → Command (World F) Bytes
  unfolding find_held
  show_held id = do entry ← find_held id; pure entry.raw

  -- `moderate reject`
  unfoldable pub reject_held : ℕ → Command (World F) (Unit {0})
  unfolding delete_held digits
  reject_held id = do
    deleted ← on_db (delete_held id)
    (if deleted then say (codes "rejected " ++ show id) else try_ (bail (no_held id)))

  module _ {Key : Type 0} (parse_ip : Text → Option Text) where
    module _ (services : Services F Key (World F)) (state : AppState F Key) where
      unfoldable pub distribute_held : MailingList Key → HeldMessage → Command (World F) Outcome
      unfolding distribute_approved
      distribute_held list entry =
          attempt (λ r. r)
            (λ w. distribute_approved services state list (ingress_of parse_ip entry) entry.raw w)

      -- The held entry is deleted after the message was distributed, dropped or queued anew.
      unfoldable pub conclude : ℕ → Outcome → Command (World F) (Unit {0})
      unfolding delete_held digits
      conclude id outcome = do _ ← on_db (delete_held id); say (outcome_line id outcome)

      unfoldable pub approve_entry : ℕ → HeldMessage → Command (World F) (Unit {0})
      unfolding distribute_held list_by_name digits conclude
      approve_entry id entry = do
        list ← try_ (
            or_bail
              (codes "list `"
                ++ entry.list
                ++ codes "` for held message "
                ++ show id
                ++ codes " is not loaded")
              (list_by_name state entry.list))
        outcome ← distribute_held list entry
        conclude id outcome

      -- `moderate approve`, once the daemon's state is loaded.
      unfoldable pub approve_held : ℕ → Command (World F) (Unit {0})
      unfolding find_held approve_entry
      approve_held id = find_held id >>= approve_entry id

    -- `moderate approve`: what is loaded decides the services.
    unfoldable pub approve :
        (sieve : Sieve)
        → (PolicyEngine sieve → AppState F Key → Services F Key (World F))
        → Fallible (AppState F Key × (PolicyEngine sieve × Db F))
        → ℕ
        → Command (World F) (Unit {0})
    unfolding approve_held
    approve sieve services loaded id = do
      (state, (policy, store)) ← try_ loaded
      use_store store
      approve_held (services policy state) state id
