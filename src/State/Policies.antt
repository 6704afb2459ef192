-- ===== src/State/Policies.antt =====
-- What the daemon has once it is started, `crates/carriers/src/state.rs`.
use carriers.Base.{
  Text, Bytes, true, some, Result, ok, Fallible, yields, to_ascii_lowercase, trim, text_eq, ◌≡◌, ap,
}
use carriers.Base.Maybe.{is_some}
use carriers.Files.{Files}
use carriers.MailingList.{Config, KeyConfig, MailingList}
use carriers.Policy.{PolicyEngine, lookup}
use carriers.Policy.Load.{has_policy}
use carriers.SieveEngine.{Sieve}
use carriers.State.{AppState, list_for_address}
use carriers.State.Load.{Toml}
use carriers.Store.{Db}
use carriers.State.Lists.{AreLists}

module _ {Key : Type 0} (sieve : Sieve) (policy : PolicyEngine sieve) where
  abbrev IsKnown : Text × MailingList Key → Type 0
  IsKnown e = has_policy sieve policy e.1.cfg.policy ≡ true

module _ {F Key : Type 0} (files : Files) (toml : Toml F)
    (load_dkim_key : KeyConfig → Result Key) where
  module _ (sieve : Sieve) (source : Text → Bytes) where
    -- An address finds a list by that list's own posting address, and its policy is in the engine.
    abbrev pub IsServed : AppState F Key → PolicyEngine sieve → Type 0
    IsServed state policy =
        (address : Text) (list : MailingList Key)
        → list_for_address state address ≡ some list
        → (to_ascii_lowercase (trim address) ≡ to_ascii_lowercase list.cfg.posting_address)
          × (is_some (lookup list.cfg.policy policy.policies) ≡ true)

    abbrev pub Started :
        (Text → Result (Db F)) → Config F → AppState F Key → PolicyEngine sieve → Db F → Type 0
    Started open_store config state policy store =
        (open_store config.db_path ≡ ok store)
        × (AreLists files toml load_dkim_key config.lists_dir state.lists × IsServed state policy)

    conclude :
        (open_store : Text → Result (Db F)) (config : Config F) (made state : AppState F Key)
        (engine policy : PolicyEngine sieve) (db store : Db F)
        → Started open_store config made engine db
        → ◌≡◌ {A = Fallible (AppState F Key × (PolicyEngine sieve × Db F))}
            (yields (made, (engine, db)))
            (yields (state, (policy, store)))
        → Started open_store config state policy store
    conclude open_store config made state engine policy db store s h =
        let e : ◌≡◌ {A = AppState F Key × (PolicyEngine sieve × Db F)} (made, (engine, db))
            (state, (policy, store)) =
          cc in
        rw (← ap (λ t. t.0) e, ← ap (λ t. t.1.0) e, ← ap (λ t. t.1.1) e) s
