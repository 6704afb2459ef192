-- ===== src/Cli/Overview.antt =====
-- `policies` in `crates/carriers/src/main.rs`: the scripts that are loaded, by name.
use carriers.Base.{
  show, ℕ, Text, ◌&&◌, List, ◌++◌, map, codes, is_empty, if◌then◌else◌, length, ◌==◌, nat_eq,
  Fallible,
}
use carriers.Cli.{Command, try_, ◌>>=◌, ◌>>◌, say}
use carriers.Cli.Members.{comma}
use carriers.Policy.{PolicyEngine}
use carriers.Policy.Load.{custom_names}
use carriers.SieveEngine.{Sieve}
use carriers.Store.Order.{sort_by, text_leb}

-- Names in their order, or a word for none.
unfoldable pub sorted_or_none : List Text → Text
unfolding sort_by text_leb
sorted_or_none names =
    let sorted = sort_by text_leb (λ n. n) names in
    if is_empty sorted then codes "(none)" else comma sorted

unfoldable pub global_line : ℕ → ℕ → Text
global_line before after =
    if (before == 0) && (after == 0)
    then codes "global:   (none)"
    else codes "global:   before="
      ++ show before
      ++ codes " script(s), after="
      ++ show after
      ++ codes " script(s)"

unfoldable pub policies :
    {W : Type 0} (sieve : Sieve) → Fallible (PolicyEngine sieve) → Command W (Unit {0})
unfolding custom_names sorted_or_none global_line
policies sieve loaded = do
  engine ← try_ loaded
  say (codes "built-in: open, subscribers, posters, moderated")
  say (codes "custom:   " ++ sorted_or_none (custom_names sieve engine))
  say (global_line (length engine.global_before) (length engine.global_after))
  say (codes "domains:  " ++ sorted_or_none (map (λ d. d.0) engine.domains))
