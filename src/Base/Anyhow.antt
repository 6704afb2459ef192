-- ===== src/Base/Anyhow.antt =====
-- `anyhow`, as `crates/carriers` uses it: a failure is an error of the library or a message, under
-- the contexts that were put around it.
use Prim.Native.Nat.{ℕ}
use mathlib.Core.Path.{◌≡◌, refl}
use mathlib.Core.Bool.{Bool, true, false}
use mathlib.Core.List.{List}
use mathlib.Core.Option.{Option, none, some}
use carriers.Base.Tests.{if◌then◌else◌}
use carriers.Base.Effects.{Error, Result, ok, err}

pub data Failure : Type 0 where
  caused : Error → Failure
  bailed : List ℕ → Failure
  within : List ℕ → Failure → Failure

pub data Fallible {ℓ} (A : Type ℓ) : Type ℓ where
  yields : A → Fallible A
  fails : Failure → Fallible A

-- `?` on a result of the library.
abbrev pub question {ℓ} : {A : Type ℓ} → Result A → Fallible A
question (ok a) = yields a
question (err e) = fails (caused e)

-- `bail!`
abbrev pub bail {ℓ} : {A : Type ℓ} → List ℕ → Fallible A
bail message = fails (bailed message)

abbrev pub with_context {ℓ} : {A : Type ℓ} → List ℕ → Fallible A → Fallible A
with_context text (yields a) = yields a
with_context text (fails e) = fails (within text e)

-- `with_context` on an option.
abbrev pub or_bail {ℓ} : {A : Type ℓ} → List ℕ → Option A → Fallible A
or_bail text none = bail text
or_bail text (some a) = yields a

abbrev pub proceed_with {ℓ κ} :
    {A : Type ℓ} {B : Type κ} → Fallible A → (A → Fallible B) → Fallible B
proceed_with (yields a) f = f a
proceed_with (fails e) f = fails e

-- A chain that succeeds, taken apart.
pub proceed_with-yields {ℓ κ} :
    {A : Type ℓ} {B : Type κ} (r : Fallible A) (f : A → Fallible B) (b : B)
    → proceed_with r f ≡ yields b
    → (a : A) × ((r ≡ yields a) × (f a ≡ yields b))
proceed_with-yields (yields a) f b h = (a, (refl, h))
proceed_with-yields (fails e) f b h = absurd (cc)

pub with_context-yields {ℓ} :
    {A : Type ℓ} (text : List ℕ) (r : Fallible A) (a : A)
    → with_context text r ≡ yields a
    → r ≡ yields a
with_context-yields text (yields x) a h = h
with_context-yields text (fails e) a h = absurd (cc)

pub question-yields {ℓ} : {A : Type ℓ} (r : Result A) (a : A) → question r ≡ yields a → r ≡ ok a
question-yields (ok x) a h = let e : x ≡ a = cc in cc
question-yields (err e) a h = absurd (cc)

-- A guard that was passed.
pub guard-yields {ℓ} :
    {A : Type ℓ} (t : Bool) (e : Failure) (r : Fallible A) (a : A)
    → (if t then fails e else r) ≡ yields a
    → (t ≡ false) × (r ≡ yields a)
guard-yields true e r a h = absurd (cc)
guard-yields false e r a h = (refl, h)
