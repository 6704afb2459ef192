-- ===== src/Base/Str.antt =====
-- Text as a list of Unicode scalar values, and the methods of Rust's `str` that the program calls.
use Prim.Native.Nat.{ℕ, zero, suc, ◌+◌}
use Prim.Native.Char.{code}
use Prim.Native.String.{String}
use mathlib.Core.Bool.{Bool, true, false, ◌&&◌, ◌||◌}
use mathlib.Core.List.{List, [], ◌∷◌, ◌++◌, map, reverse}
use mathlib.Core.Option
use mathlib.Core.Option.{Option, none, some}
use carriers.Base.Tests.{if◌then◌else◌, ◌==◌, nat_eq, text_eq, leb, text_beq}
use carriers.Base.Lists.{any}

abbrev pub Text : Type 0
Text = List ℕ

abbrev pub Bytes : Type 0
Bytes = List ℕ

-- The characters of a literal.
abbrev pub codes : String → Text
codes String.[] = []
codes (String.◌∷◌ c s) = code c ∷ codes s

-- `char::is_whitespace`: the Unicode property White_Space.
unfoldable pub is_whitespace : ℕ → Bool
is_whitespace c =
    (leb 9 c && leb c 13)
    || (c == 32)
    || (c == 0x85)
    || (c == 0xA0)
    || (c == 0x1680)
    || (leb 0x2000 c && leb c 0x200A)
    || (c == 0x2028)
    || (c == 0x2029)
    || (c == 0x202F)
    || (c == 0x205F)
    || (c == 0x3000)

-- `to_ascii_lowercase` on one character and on a text.
unfoldable pub lower : ℕ → ℕ
lower c = if leb b'A' c && leb c b'Z' then c + 32 else c

abbrev pub to_ascii_lowercase : Text → Text
to_ascii_lowercase = map lower

unfoldable pub eq_ignore_ascii_case : Text → Text → Bool
eq_ignore_ascii_case s t = to_ascii_lowercase s == to_ascii_lowercase t

unfoldable pub trim_start : Text → Text
trim_start [] = []
trim_start (c ∷ s) = if is_whitespace c then trim_start s else c ∷ s

unfoldable pub trim_end : Text → Text
unfolding trim_start
trim_end s = reverse (trim_start (reverse s))

unfoldable pub trim : Text → Text
unfolding trim_end is_whitespace
trim s = trim_end (trim_start s)

unfoldable pub trim_start_of : ℕ → Text → Text
trim_start_of d [] = []
trim_start_of d (c ∷ s) = if c == d then trim_start_of d s else c ∷ s

-- `trim_end_matches` and `trim_matches` by one character.
unfoldable pub trim_end_of : ℕ → Text → Text
unfolding trim_start_of
trim_end_of d s = reverse (trim_start_of d (reverse s))

unfoldable pub trim_matches : ℕ → Text → Text
unfolding trim_start_of
trim_matches d s = reverse (trim_start_of d (reverse (trim_start_of d s)))

unfoldable pub contains_char : ℕ → Text → Bool
contains_char d s = any (λ c. c == d) s

-- `replacen(c, d, 1)` by characters.
unfoldable pub replace_first : ℕ → ℕ → Text → Text
replace_first c d [] = []
replace_first c d (x ∷ s) = if x == c then d ∷ s else x ∷ replace_first c d s

unfoldable pub replace : ℕ → ℕ → Text → Text
replace c d s = map (λ x. if x == c then d else x) s

abbrev pub before_cons : ℕ → Option (Text × Text) → Option (Text × Text)
before_cons x none = none
before_cons x (some (a, b)) = some (x ∷ a, b)

-- `split_once` and `rsplit_once` at a character.
unfoldable pub split_once : ℕ → Text → Option (Text × Text)
split_once c [] = none
split_once c (x ∷ s) = if x == c then some ([], s) else before_cons x (split_once c s)

unfoldable pub rsplit_once : ℕ → Text → Option (Text × Text)
rsplit_once c [] = none
rsplit_once c (x ∷ s) = elim (rsplit_once c s) [
  | some (a, b) ↦ some (x ∷ a, b)
  | none ↦ if x == c then some ([], s) else none
]

unfoldable pub strip_prefix : Text → Text → Option Text
strip_prefix [] s = some s
strip_prefix (p ∷ ps) [] = none
strip_prefix (p ∷ ps) (x ∷ s) = if x == p then strip_prefix ps s else none

-- `split_once` at a text: its first occurrence.
unfoldable pub split_once_str : Text → Text → Option (Text × Text)
unfolding strip_prefix
split_once_str p [] = Option.map (λ r. ([], r)) (strip_prefix p [])
split_once_str p (x ∷ s) = elim (strip_prefix p (x ∷ s)) [
  | some r ↦ some ([], r)
  | none ↦ before_cons x (split_once_str p s)
]

-- `starts_with` of a text.
unfoldable pub starts_with : Text → Text → Bool
starts_with [] s = true
starts_with (p ∷ ps) [] = false
starts_with (p ∷ ps) (x ∷ s) = (x == p) && starts_with ps s

-- `splitn(n, c)`
unfoldable pub splitn : ℕ → ℕ → Text → List Text
unfolding split_once
splitn zero c s = []
splitn (suc zero) c s = s ∷ []
splitn (suc (suc n)) c s = elim (split_once c s) [
  | none ↦ s ∷ []
  | some (a, b) ↦ a ∷ splitn (suc n) c b
]

-- A line without the carriage return that may end it.
unfoldable pub strip_cr : Text → Text
strip_cr [] = []
strip_cr (c ∷ []) = if c == b'\r' then [] else c ∷ []
strip_cr (c ∷ d ∷ s) = c ∷ strip_cr (d ∷ s)

-- `str::lines`: cut at every line feed; a line that ends in one loses a carriage return before it.
-- `cur` is the line read so far.
unfoldable pub lines_from : Text → Text → List Text
lines_from cur [] = if cur == [] then [] else cur ∷ []
lines_from cur (c ∷ s) = elim (c == b'\n') [
  | true ↦ strip_cr cur ∷ lines_from [] s
  | false ↦ lines_from (cur ++ c ∷ []) s
]

unfoldable pub lines : Text → List Text
unfolding lines_from strip_cr text_beq
lines s = lines_from [] s
