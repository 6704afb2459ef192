-- ===== src/Cli.antt =====
-- The command line, `crates/carriers/src/main.rs`: what its commands share. A command reads and
-- changes a world, prints, and fails or succeeds; what was changed and printed stays so. `clap`'s
-- parsing of the arguments, and output that cannot be written, are not modelled.
pub mod Zone
pub mod Setup
pub mod Review
pub mod Members
pub mod Overview
mod Tests
use carriers.Base.{
  Text, List, [], ◌∷◌, ◌++◌, Result, Fallible, yields, fails, Failure, question, with_context,
  proceed_with, codes,
}

-- The world of a command, and the lines printed so far.
pub record Screen (W : Type 0) : Type 0 where
  pub world : W
  pub printed : List Text

abbrev pub Command : Type 0 → Type 0 → Type 0
Command W A = Screen W → Fallible A × Screen W

module _ {W : Type 0} where
  abbrev pub pure : {A : Type 0} → A → Command W A
  pure a s = (yields a, s)

  -- `?` on a result that needs no world.
  abbrev pub try_ : {A : Type 0} → Fallible A → Command W A
  try_ r s = (r, s)

  abbrev pub proceed :
      {A B : Type 0} → (A → Command W B) → Fallible A × Screen W → Fallible B × Screen W
  proceed f (yields a, s) = f a s
  proceed f (fails e, s) = (fails e, s)

  infixl 5 ◌>>=◌ ◌>>◌
  abbrev pub ◌>>=◌ : {A B : Type 0} → Command W A → (A → Command W B) → Command W B
  ◌>>=◌ m f s = proceed f (m s)

  abbrev pub ◌>>◌ : {B : Type 0} → Command W (Unit {0}) → Command W B → Command W B
  m >> k = m >>= λ _. k

  -- `println!`
  abbrev pub say : Text → Command W (Unit {0})
  say line s = (yields tt, record s { printed = s.printed ++ line ∷ [] })

  -- An operation on the world.
  abbrev pub act : {A : Type 0} → (W → A × W) → Command W A
  act f s = let (a, w) = f s.world in (yields a, record s { world = w })

  -- One that may fail, with a context on its failure.
  abbrev pub attempt : {A : Type 0} → (Fallible A → Fallible A) → (W → Result A × W) → Command W A
  attempt context f s = let (r, w) = f s.world in (context (question r), record s { world = w })
