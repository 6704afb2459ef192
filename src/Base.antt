-- ===== src/Base.antt =====
-- The names that the other modules share: those of the libraries, and those of the children.
mod Tests
mod Lists
mod Str
mod Effects
mod Anyhow
pub mod Maybe
mod Utf8
mod Decimal
unfoldable pub use Tests.*
pub use Lists.*
unfoldable pub use Str.*
pub use Effects.*
pub use Anyhow.*
unfoldable pub use Utf8.{from_utf8_lossy, as_bytes}
pub use Utf8.{from_utf8_lossy_ascii, as_bytes_ascii, as_bytes-append}
unfoldable pub use Decimal.*
pub use Prim.Native.Nat.{ℕ, zero, suc, ◌+◌, ◌-◌, ◌*◌, ◌/◌, ◌%◌, ◌^◌, ◌≤◌, ◌<◌}
pub use mathlib.Core.Path.{◌≡◌, refl, sym, ap, ◌∙◌}
pub use mathlib.Core.Logic.{◌≢◌, ◌↔◌, ◌⊎◌, inl, inr}
pub use mathlib.Core.Bool.{Bool, true, false, not, ◌&&◌, ◌||◌}
pub use mathlib.Core.Option.{Option, none, some}
pub use mathlib.Core.List.{List, [], ◌∷◌, ◌++◌, map, reverse}
pub use native.Mathlib.Omega.{arith}
