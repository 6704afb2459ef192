-- ===== src/Base/Effects.antt =====
-- Results, and actions that read and change a state. What was written stays written after an error.
use Prim.Native.Nat.{ℕ}
use mathlib.Core.Path.{◌≡◌, refl, sym, ap, ◌∙◌, subst}
use mathlib.Core.Logic.{◌⊎◌, inl, inr}
use mathlib.Core.List.{List, ◌++◌}
use mathlib.Core.Bool.{Bool, true, false}
use carriers.Base.Tests.{if◌then◌else◌}
use carriers.Base.Str.{codes}

-- `crates/carriers-core/src/error.rs`: the error type. The text is the message without its prefix.
pub data Error : Type 0 where
  io : List ℕ → Error
  config : List ℕ → Error
  toml : List ℕ → Error
  db : List ℕ → Error
  key : List ℕ → Error
  auth : List ℕ → Error
  delivery : List ℕ → Error
  list_not_found : List ℕ → Error
  unparseable : List ℕ → Error

pub data Result {ℓ} (A : Type ℓ) : Type ℓ where
  ok : A → Result A
  err : Error → Result A

abbrev pub Action {ℓ κ} : Type ℓ → Type κ → Type (ℓ ⊔ κ)
Action W A = W → Result A × W

module _ {ℓ κ} {W : Type ℓ} {A : Type κ} where
  abbrev pub pure : A → Action W A
  pure a w = (ok a, w)

  abbrev pub throw : Error → Action W A
  throw e w = (err e, w)

-- What follows an action that ended so.
abbrev pub proceed {ℓ κ μ} :
    {W : Type ℓ} {A : Type κ} {B : Type μ} → (A → Action W B) → Result A × W → Result B × W
proceed f (ok a, w) = f a w
proceed f (err e, w) = (err e, w)

infixl 5 ◌>>=◌ ◌>>◌
abbrev pub ◌>>=◌ {ℓ κ μ} :
    {W : Type ℓ} {A : Type κ} {B : Type μ} → Action W A → (A → Action W B) → Action W B
◌>>=◌ m f w = proceed f (m w)

abbrev pub ◌>>◌ {ℓ κ} : {W : Type ℓ} {B : Type κ} → Action W (Unit {0}) → Action W B → Action W B
m >> k = m >>= λ _. k

-- `ok_or_else` and `?` on a result that needs no state.
abbrev pub lift {ℓ κ} : {W : Type ℓ} {A : Type κ} → Result A → Action W A
lift r w = (r, w)

-- The `#[error]` attributes of the error type.
abbrev pub show_error : Error → List ℕ
show_error (io e) = codes "I/O error: " ++ e
show_error (config e) = codes "configuration error: " ++ e
show_error (toml e) = codes "TOML parse error: " ++ e
show_error (db e) = codes "database error: " ++ e
show_error (key e) = codes "key error: " ++ e
show_error (auth e) = codes "mail authentication/signing error: " ++ e
show_error (delivery e) = codes "delivery error: " ++ e
show_error (list_not_found e) = codes "list not found: " ++ e
show_error (unparseable e) = codes "unparseable message: " ++ e

-- `map_err`
abbrev pub map_err {ℓ} : {A : Type ℓ} → (Error → Error) → Result A → Result A
map_err f (ok a) = ok a
map_err f (err e) = err (f e)

abbrev pub and_then {ℓ κ} : {A : Type ℓ} {B : Type κ} → Result A → (A → Result B) → Result B
and_then (ok a) f = f a
and_then (err e) f = err e

-- An action with a known result that leaves the state alone, followed by one that does so too.
pub >>=-known {ℓ κ μ} :
    {W : Type ℓ} {A : Type κ} {B : Type μ} (m : Action W A) (f : A → Action W B) (g : A → Result B)
    (r : Result A) (w : W)
    → m w ≡ (r, w)
    → ((a : A) → f a w ≡ (g a, w))
    → (m >>= f) w ≡ (and_then r g, w)
>>=-known m f g (ok a) w e h = ap (proceed f) e ∙ h a
>>=-known m f g (err x) w e h = ap (proceed f) e

pub and_then_assoc {ℓ κ μ} :
    {A : Type ℓ} {B : Type κ} {C : Type μ} (r : Result A) (f : A → Result B) (g : B → Result C)
    → and_then (and_then r f) g ≡ and_then r (λ a. and_then (f a) g)
and_then_assoc (ok a) f g = refl
and_then_assoc (err e) f g = refl

-- A chain that succeeds, taken apart.
pub and_then-ok {ℓ κ} :
    {A : Type ℓ} {B : Type κ} (r : Result A) (f : A → Result B) (b : B)
    → and_then r f ≡ ok b
    → (a : A) × ((r ≡ ok a) × (f a ≡ ok b))
and_then-ok (ok a) f b h = (a, (refl, h))
and_then-ok (err e) f b h = absurd (cc)

-- A guard that was passed.
pub guard-ok {ℓ} :
    {A : Type ℓ} (t : Bool) (e : Error) (r : Result A) (a : A)
    → (if t then err e else r) ≡ ok a
    → (t ≡ false) × (r ≡ ok a)
guard-ok true e r a h = absurd (cc)
guard-ok false e r a h = (refl, h)

-- The branch that was taken.
pub if_taken {ℓ} :
    {A : Type ℓ} (t : Bool) (a b c : A)
    → (if t then a else b) ≡ c
    → ((t ≡ true) × (a ≡ c)) ⊎ ((t ≡ false) × (b ≡ c))
if_taken true a b c h = inl (refl, h)
if_taken false a b c h = inr (refl, h)

-- Actions that leave the state as it was, whatever their result.
abbrev pub IsSilent {ℓ κ} : {W : Type ℓ} {A : Type κ} → Action W A → Type ℓ
IsSilent {W = W} m = (w : W) → (m w).1 ≡ w

module _ {ℓ κ μ} {W : Type ℓ} {A : Type κ} {B : Type μ} where
  pub >>=-IsSilent :
      (m : Action W A) (f : A → Action W B)
      → IsSilent m
      → ((a : A) → IsSilent (f a))
      → IsSilent (m >>= f)
  >>=-IsSilent m f hm hf w = go (m w) (hm w)
    where
      go : (r : Result A × W) → r.1 ≡ w → (proceed f r).1 ≡ w
      go (ok a, w') e = hf a w' ∙ e
      go (err x, w') e = e

  -- What holds after a silent action and what follows it.
  pub >>=-silent :
      (P : Result B × W → Type 0) (m : Action W A) (f : A → Action W B) (w : W)
      → IsSilent m
      → ((e : Error) → P (err e, w))
      → ((a : A) → P (f a w))
      → P ((m >>= f) w)
  >>=-silent P m f w hm he hf = go (m w) (hm w)
    where
      go : (r : Result A × W) → r.1 ≡ w → P (proceed f r)
      go (ok a, w') e = subst (λ v. P (f a v)) (sym e) (hf a)
      go (err x, w') e = subst (λ v. P (err x, v)) (sym e) (he x)
