-- ===== src/State.antt =====
-- `crates/carriers/src/state.rs`: the lists that the daemon serves, by posting address, and the
-- check that every list's policy is known.
pub mod Load
pub mod Latest
pub mod Lists
pub mod Policies
pub mod Tests
use carriers.Base.{
  Text, Bool, not, Option, List, [], ◌∷◌, ◌++◌, codes, Fallible, yields, bail, to_ascii_lowercase,
  lower, trim, find, ◌==◌, text_eq, text_beq, if◌then◌else◌,
}
use mathlib.Core.Option
use carriers.MailingList.{MailingList, Config}
use carriers.Policy.{PolicyEngine, lookup}
use carriers.Policy.Load.{has_policy}
use carriers.SieveEngine.{Sieve}

-- The lists are the entries of the map, each under its key.
pub record AppState (F Key : Type 0) : Type 0 where
  pub config : Config F
  pub lists : List (Text × MailingList Key)

module _ {F Key : Type 0} where
  unfoldable pub list_for_address : AppState F Key → Text → Option (MailingList Key)
  unfolding lower trim
  list_for_address state address = lookup (to_ascii_lowercase (trim address)) state.lists

  unfoldable pub list_by_name : AppState F Key → Text → Option (MailingList Key)
  unfolding text_beq
  list_by_name state name = Option.map (λ e. e.1) (find (λ e. e.1.name == name) state.lists)

-- `policy.contains`
unfoldable pub validate_policies :
    {Key : Type 0} (sieve : Sieve)
    → List (Text × MailingList Key)
    → PolicyEngine sieve
    → Fallible (Unit {0})
unfolding has_policy
validate_policies sieve [] policy = yields tt
validate_policies sieve ((_, list) ∷ lists) policy =
    let rest = validate_policies sieve lists policy in
    if not (has_policy sieve policy list.cfg.policy)
    then bail (
        codes "list `"
        ++ list.name
        ++ codes "` references unknown policy `"
        ++ list.cfg.policy
        ++ codes "`")
    else rest
