-- ===== src/Bounce/Decisive.antt =====
-- The lines that decide `classify` of `crates/carriers-core/src/bounce.rs`, by their characters.
use carriers.Base.{
  ℕ, Text, true, false, Option, none, some, [], ◌∷◌, ◌++◌, codes, ◌==◌, nat_eq, text_eq, text_beq,
  if◌then◌else◌, eq_ignore_ascii_case, is_whitespace, reverse, take, drop, trim, trim_start,
  trim_end, splitn, split_once, before_cons, suc, arith, ◌≡◌, refl, ◌∙◌, ap, sym, ◌⊎◌, inl, inr,
  Bool-cases,
}
use mathlib.Core.List.{reverse-cons, reverse-append}
use carriers.Bounce.{BounceKind, hard, soft, status_value, class_kind, line_kind}

-- The kind that a digit and a dot stand for.
abbrev pub class_of : Text → Option BounceKind
class_of [] = none
class_of (digit ∷ []) = none
class_of (digit ∷ dot ∷ rest) =
    if dot == b'.'
    then (if digit == b'5' then some hard else if digit == b'4' then some soft else none)
    else none

-- A line decides if, after white space, it has the field's name in any case, and after white space
-- again a `5` or a `4` right before a dot.
abbrev pub decisive : Text → Option BounceKind
decisive line =
    let l = trim_start line in
    if eq_ignore_ascii_case (take 7 l) (codes "status:")
    then class_of (trim_start (drop 7 l))
    else none

trim_start-ends :
    (s : Text) (c : ℕ)
    → is_whitespace c ≡ false
    → trim_start (s ++ (c ∷ [])) ≡ trim_start s ++ (c ∷ [])
unfolding trim_start
trim_start-ends [] c h = rw h refl
trim_start-ends (x ∷ s) c h = elim (Bool-cases (is_whitespace x)) [
  | inl e ↦ rw e (trim_start-ends s c h)
  | inr e ↦ rw e refl
]

-- What `trim_start` leaves of a text with a last character is nothing, or has that last character.
trim_start-last :
    (s : Text) (c : ℕ)
    → (trim_start (s ++ (c ∷ [])) ≡ [])
      ⊎ ((r : Text) × (trim_start (s ++ (c ∷ [])) ≡ r ++ (c ∷ [])))
unfolding trim_start
trim_start-last [] c = elim (Bool-cases (is_whitespace c)) [
  | inl e ↦ inl (rw e refl)
  | inr e ↦ inr ([], rw e refl)
]
trim_start-last (x ∷ s) c = elim (Bool-cases (is_whitespace x)) [
  | inl e ↦ rw e (trim_start-last s c)
  | inr e ↦ rw e (inr (x ∷ s, refl))
]

trim_end-cons : (c : ℕ) (s : Text) → is_whitespace c ≡ false → trim_end (c ∷ s) ≡ c ∷ trim_end s
unfolding trim_end
trim_end-cons c s h =
    ap (λ r. reverse (trim_start r)) (reverse-cons c s)
    ∙ ap reverse (trim_start-ends (reverse s) c h)
    ∙ reverse-append (trim_start (reverse s)) (c ∷ [])

-- The end of a text is cut off, not its first character alone.
trim_end-head :
    (c : ℕ) (s : Text) → (trim_end (c ∷ s) ≡ []) ⊎ ((r : Text) × (trim_end (c ∷ s) ≡ c ∷ r))
unfolding trim_end
trim_end-head c s = elim (trim_start-last (reverse s) c) [
  | inl e ↦ inl (rw (reverse-cons c s, e) refl)
  | inr (r, e) ↦ inr (reverse r, rw (reverse-cons c s, e) (reverse-append r (c ∷ [])))
]

trim_start-head :
    (s : Text)
    → (trim_start s ≡ [])
      ⊎ ((c : ℕ) × ((r : Text) × ((trim_start s ≡ c ∷ r) × (is_whitespace c ≡ false))))
unfolding trim_start
trim_start-head [] = inl refl
trim_start-head (c ∷ s) = elim (Bool-cases (is_whitespace c)) [
  | inl e ↦ rw e (trim_start-head s)
  | inr e ↦ rw e (inr (c, (s, (refl, e))))
]

splitn-none : (n : ℕ) (s : Text) → split_once b'.' s ≡ none → splitn (suc (suc n)) b'.' s ≡ s ∷ []
unfolding splitn
splitn-none n s h = rw (splitn, h) refl

splitn-some :
    (n : ℕ) (s a b : Text)
    → split_once b'.' s ≡ some (a, b)
    → splitn (suc (suc n)) b'.' s ≡ a ∷ splitn (suc n) b'.' b
unfolding splitn
splitn-some n s a b h = rw (splitn, h) refl

-- The class of a value whose second part follows the first dot.
class_kind-subject :
    (x r : Text)
    → class_kind (x ∷ splitn 2 b'.' r)
      ≡ (if x == codes "5" then some hard else if x == codes "4" then some soft else none)
unfolding class_kind
class_kind-subject x r = parts (split_once b'.' r) refl
  where
    parts :
        (o : Option (Text × Text))
        → split_once b'.' r ≡ o
        → class_kind (x ∷ splitn 2 b'.' r)
          ≡ (if x == codes "5" then some hard else if x == codes "4" then some soft else none)
    parts none h = rw (splitn-none 0 r h) refl
    parts (some (a, b)) h = rw (splitn-some 0 r a b h) refl

split_once-next :
    (c : ℕ) (s : Text)
    → split_once b'.' (c ∷ s)
      ≡ (if c == b'.' then some ([], s) else before_cons c (split_once b'.' s))
unfolding split_once
split_once-next c s = refl

split_once-later :
    (c : ℕ) (s : Text) (o : Option (Text × Text))
    → (c == b'.') ≡ false
    → split_once b'.' s ≡ o
    → split_once b'.' (c ∷ s) ≡ before_cons c o
split_once-later c s o hc h = split_once-next c s ∙ rw (hc, h) refl

-- A value whose first two characters are no dot has no class of one character.
class_kind-long :
    (c d : ℕ) (r : Text)
    → (c == b'.') ≡ false
    → (d == b'.') ≡ false
    → class_kind (splitn 3 b'.' (c ∷ d ∷ r)) ≡ none
unfolding class_kind text_beq
class_kind-long c d r hc hd = parts (split_once b'.' r) refl
  where
    before :
        (o : Option (Text × Text))
        → split_once b'.' r ≡ o
        → split_once b'.' (c ∷ d ∷ r) ≡ before_cons c (before_cons d o)
    before o h = split_once-later c (d ∷ r) _ hc (split_once-later d r o hd h)

    parts :
        (o : Option (Text × Text))
        → split_once b'.' r ≡ o
        → class_kind (splitn 3 b'.' (c ∷ d ∷ r)) ≡ none
    parts none h = rw (splitn-none 1 (c ∷ d ∷ r) (before none h)) refl
    parts (some (a, b)) h =
        ap class_kind (splitn-some 1 (c ∷ d ∷ r) (c ∷ d ∷ a) b (before (some (a, b)) h))
        ∙ class_kind-subject (c ∷ d ∷ a) b
        ∙ ground arith

-- A value that starts with a dot has no class.
class_kind-dot : (c : ℕ) (s : Text) → (c == b'.') ≡ true → class_kind (splitn 3 b'.' (c ∷ s)) ≡ none
unfolding text_beq
class_kind-dot c s h =
    ap class_kind (splitn-some 1 (c ∷ s) [] s (split_once-next c s ∙ rw h refl))
    ∙ class_kind-subject [] s

class_kind-single : (c : ℕ) → (c == b'.') ≡ false → class_kind (splitn 3 b'.' (c ∷ [])) ≡ none
unfolding class_kind split_once
class_kind-single c h = ap class_kind (splitn-none 1 (c ∷ []) (split_once-next c [] ∙ rw h refl))

-- A digit, then a dot.
class_kind-digit :
    (c d : ℕ) (s : Text)
    → (c == b'.') ≡ false
    → (d == b'.') ≡ true
    → class_kind (splitn 3 b'.' (c ∷ d ∷ s)) ≡ class_of (c ∷ d ∷ s)
unfolding text_beq
class_kind-digit c d s hc hd =
    ap class_kind (
      splitn-some 1 (c ∷ d ∷ s) (c ∷ []) s
        (split_once-later c (d ∷ s) (some ([], s)) hc (split_once-next d s ∙ rw hd refl)))
    ∙ class_kind-subject (c ∷ []) s
    ∙ ground arith

not-dot : (c : ℕ) → is_whitespace c ≡ true → (c == b'.') ≡ false
unfolding is_whitespace
not-dot c h = ground arith

is-dot : (c : ℕ) → (c == b'.') ≡ true → is_whitespace c ≡ false
unfolding is_whitespace
is-dot c h = ground arith

-- The class by the parts of the value is the one by its first two characters.
class_kind-class_of :
    (c : ℕ) (s : Text)
    → is_whitespace c ≡ false
    → class_kind (splitn 3 b'.' (trim_end (c ∷ s))) ≡ class_of (c ∷ s)
class_kind-class_of c s h =
    ap (λ v. class_kind (splitn 3 b'.' v)) (trim_end-cons c s h) ∙ elim (Bool-cases (c == b'.')) [
      | inl e ↦ class_kind-dot c (trim_end s) e ∙ sym (no-class c s e)
      | inr e ↦ after s e
    ]
  where
    no-class : (c : ℕ) (s : Text) → (c == b'.') ≡ true → class_of (c ∷ s) ≡ none
    no-class c [] e = refl
    no-class c (d ∷ s) e = ground arith

    after :
        (s : Text)
        → (c == b'.') ≡ false
        → class_kind (splitn 3 b'.' (c ∷ trim_end s)) ≡ class_of (c ∷ s)
    after [] e = unfold trim_end trim_start in class_kind-single c e
    after (d ∷ s) e = elim (Bool-cases (d == b'.')) [
      | inl dot ↦
          rw (trim_end-cons d s (is-dot d dot)) (class_kind-digit c d (trim_end s) e dot ∙ refl)
      | inr other ↦ elim (trim_end-head d s) [
        | inl w ↦ rw (w) (class_kind-single c e ∙ ground arith)
        | inr (r, w) ↦ rw (w) (class_kind-long c d r e other ∙ ground arith)
      ]
    ]

pub line_kind-decisive : (line : Text) → line_kind line ≡ decisive line
unfolding line_kind status_value trim
line_kind-decisive line =
    let l = trim_start line in
    elim (Bool-cases (eq_ignore_ascii_case (take 7 l) (codes "status:"))) [
      | inr e ↦ rw e refl
      | inl e ↦ rw e (elim (trim_start-head (drop 7 l)) [
        | inl w ↦ rw w (unfold trim_end trim_start class_kind splitn split_once in refl)
        | inr (c, (r, (w, h))) ↦ rw w (class_kind-class_of c r h)
      ])
    ]
