-- ===== src/Base/Decimal.antt =====
-- Numbers in decimal, as `Display` prints them and as `u16::from_str` reads them.
use Prim.Native.Nat.{ℕ, zero, suc, ◌+◌, ◌-◌, ◌*◌, ◌/◌, ◌%◌, ◌≤◌, ◌<◌}
use mathlib.Core.Bool.{Bool, true, false, ◌&&◌}
use mathlib.Core.List.{[], ◌∷◌, ◌++◌, append_assoc, append-nil}
use mathlib.Core.Option.{Option, none, some}
use mathlib.Core.Path.{◌≡◌, refl, sym, ap, ◌∙◌}
use native.Mathlib.Omega.{arith}
use carriers.Base.Lists.{all, all-append, is_empty}
use carriers.Base.Str.{Text}
use carriers.Base.Tests.{ltb, leb, if◌then◌else◌, ◌==◌, nat_eq, Bool-cases}
use mathlib.Core.Logic.{inl, inr}

-- A number in decimal digits, on fuel: the number is enough.
unfoldable pub digits : ℕ → ℕ → Text
digits zero n = (b'0' + n % 10) ∷ []
digits (suc fuel) n =
    if ltb n 10 then (b'0' + n) ∷ [] else digits fuel (n / 10) ++ (b'0' + n % 10) ∷ []

abbrev pub show : ℕ → Text
show n = digits n n

abbrev pub is_digit : ℕ → Bool
is_digit c = leb b'0' c && leb c b'9'

-- The value of digits behind a number.
unfoldable pub read_digits : ℕ → Text → Option ℕ
read_digits n [] = some n
read_digits n (c ∷ s) =
    let rest = read_digits (n * 10 + (c - b'0')) s in if is_digit c then rest else none

abbrev pub within_u16 : Option ℕ → Option ℕ
within_u16 none = none
within_u16 (some n) = if ltb n 65536 then some n else none

-- The digits behind a plus sign, which may stand before them.
abbrev pub unsigned : Text → Text
unsigned [] = []
unsigned (c ∷ s) = if c == b'+' then s else c ∷ s

-- `u16::from_str`: at least one digit, and no overflow.
unfoldable pub parse_u16 : Text → Option ℕ
unfolding read_digits
parse_u16 s = if is_empty (unsigned s) then none else within_u16 (read_digits 0 (unsigned s))

-- One digit is read.
read_digits-digit :
    (n d : ℕ) (s : Text) → d < 10 → read_digits n ((b'0' + d) ∷ s) ≡ read_digits (n * 10 + d) s
unfolding read_digits
read_digits-digit n d s h =
    let digit : is_digit (48 + d) ≡ true = ground arith in
    let less : 48 + d - 48 ≡ d = omega arith in rw (digit, less) refl

pub all-digits : (fuel n : ℕ) → all is_digit (digits fuel n) ≡ true
unfolding digits
all-digits zero n = ground arith
all-digits (suc fuel) n =
    let rest =
      all-append is_digit (digits fuel (n / 10)) ((48 + n % 10) ∷ []) (all-digits fuel (n / 10))
        (ground arith) in
    ground (arith, rest)

-- Digits that are read with what follows them.
read_digits-digits :
    (fuel n : ℕ) (s : Text) → n ≤ fuel → read_digits 0 (digits fuel n ++ s) ≡ read_digits n s
unfolding digits
read_digits-digits zero n s h =
    read_digits-digit 0 (n % 10) s (omega arith) ∙ ap (λ m. read_digits m s) (omega arith)
read_digits-digits (suc fuel) n s h = elim (Bool-cases (ltb n 10)) [
  | inl small ↦
      rw small (read_digits-digit 0 n s (ground arith) ∙ ap (λ m. read_digits m s) (omega arith))
  | inr large ↦
      let below : 10 ≤ n = ground arith in
      rw (large, append_assoc (digits fuel (n / 10)) ((b'0' + n % 10) ∷ []) s)
        (read_digits-digits fuel (n / 10) ((b'0' + n % 10) ∷ s) (omega arith)
          ∙ read_digits-digit (n / 10) (n % 10) s (omega arith)
          ∙ ap (λ m. read_digits m s) (omega arith))
]

pub read_digits-show : (n : ℕ) → read_digits 0 (show n) ≡ some n
unfolding read_digits
read_digits-show n =
    ap (read_digits 0) (sym (append-nil (show n))) ∙ read_digits-digits n n [] (omega arith)

pub show-injective : (m n : ℕ) → show m ≡ show n → m ≡ n
show-injective m n h =
    let e : some m ≡ some n =
      sym (read_digits-show m) ∙ ap (read_digits 0) h ∙ read_digits-show n in
    cc

append-full : (s t : Text) (c : ℕ) → is_empty (s ++ (c ∷ t)) ≡ false
append-full [] t c = refl
append-full (x ∷ s) t c = refl

digits-full : (fuel n : ℕ) → is_empty (digits fuel n) ≡ false
unfolding digits
digits-full zero n = refl
digits-full (suc fuel) n = ground (arith, append-full (digits fuel (n / 10)) [] (b'0' + n % 10))

-- No digits are empty, and none begin with a sign.
digits-shape :
    (fuel n : ℕ) → (is_empty (digits fuel n) ≡ false) × (unsigned (digits fuel n) ≡ digits fuel n)
digits-shape fuel n = go (digits fuel n) (all-digits fuel n) (digits-full fuel n)
  where
    go :
        (s : Text)
        → all is_digit s ≡ true
        → is_empty s ≡ false
        → (is_empty s ≡ false) × (unsigned s ≡ s)
    go [] h e = absurd (cc)
    go (c ∷ s) h e = (refl, ground arith)

pub parse_u16-show : (n : ℕ) → n < 65536 → parse_u16 (show n) ≡ some n
unfolding parse_u16
parse_u16-show n h =
    let (full, bare) = digits-shape n n in rw (bare, full, read_digits-show n) (ground arith)
