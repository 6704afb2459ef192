-- ===== src/Cli/Zone/Quoted.antt =====
-- The TXT records that a zone file holds, read back from its text: comments begin with a semicolon, a
-- record with its name, and after `IN TXT (` a value is what stands between quotes until the
-- parenthesis closes, in strings of 255 characters at most. At another type of record, or at a longer
-- string, the reader stops.
use carriers.Base.{
  ℕ, suc, ◌+◌, ◌<◌, ◌≤◌, ltb, true, length, Text, false, List, [], ◌∷◌, ◌++◌, codes, All, ◌==◌,
  nat_eq, ◌≢◌, if◌then◌else◌, arith, ◌≡◌, refl, ap, ◌∙◌,
}
use mathlib.Core.List.{append_assoc}
use carriers.Cli.Zone.{chunk_lines}

-- Where the reader is.
pub data Place : Type 0 where
  line comment name body : Place
  -- What is still to come of the type of the record.
  header : Text → Place
  -- How much was read of a string.
  quote : ℕ → Place

abbrev pub Records : Type 0
Records = List (Text × Text)

-- A character of the name, or of the value, of the record that comes first.
abbrev pub name_char : ℕ → Records → Records
name_char c [] = (c ∷ [], []) ∷ []
name_char c ((n, v) ∷ rs) = (c ∷ n, v) ∷ rs

abbrev pub value_char : ℕ → Records → Records
value_char c [] = ([], c ∷ []) ∷ []
value_char c ((n, v) ∷ rs) = (n, c ∷ v) ∷ rs

unfoldable pub read_zone : Place → Text → Records
read_zone place [] = []
read_zone line (c ∷ s) =
    let r = read_zone line s in
    let k = read_zone comment s in
    let n = read_zone name s in if c == b'\n' then r else if c == b';' then k else name_char c n
read_zone comment (c ∷ s) =
    let r = read_zone line s in let k = read_zone comment s in if c == b'\n' then r else k
read_zone name (c ∷ s) =
    let n = read_zone name s in
    let h = read_zone (header (codes "IN TXT (")) s in if c == b' ' then h else name_char c n
read_zone (header []) (c ∷ s) = []
read_zone (header (x ∷ [])) (c ∷ s) = let b = read_zone body s in if c == x then b else []
read_zone (header (x ∷ y ∷ xs)) (c ∷ s) =
    let h = read_zone (header (y ∷ xs)) s in if c == x then h else []
read_zone body (c ∷ s) =
    let r = read_zone comment s in
    let q = read_zone (quote 0) s in
    let b = read_zone body s in if c == b'"' then q else if c == b')' then ([], []) ∷ r else b
read_zone (quote n) (c ∷ s) =
    let b = read_zone body s in
    let q = read_zone (quote (suc n)) s in
    if c == b'"' then b else if ltb n 255 then value_char c q else []

abbrev pub named : Text → Records → Records
named [] rs = rs
named (c ∷ s) rs = name_char c (named s rs)

abbrev pub valued : Text → Records → Records
valued [] rs = rs
valued (c ∷ s) rs = value_char c (valued s rs)

-- Characters of names and of values.
abbrev pub IsPlain : ℕ → Type 0
IsPlain c = (c ≢ b'\n') × ((c ≢ b' ') × (c ≢ b';'))

abbrev pub IsQuotable : ℕ → Type 0
IsQuotable c = (c < 0x80) × ((c ≢ b'"') × (c ≢ b'\\'))

pub read_zone-name :
    (s rest : Text) → All IsPlain s → read_zone name (s ++ rest) ≡ named s (read_zone name rest)
unfolding read_zone
read_zone-name [] rest u = refl
read_zone-name (c ∷ s) rest ((_, (n, _)), u) =
    let other : (c == b' ') ≡ false = ground arith in
    rw other (ap (name_char c) (read_zone-name s rest u))

read_zone-quote :
    (n : ℕ) (s rest : Text)
    → All IsQuotable s
    → n + length s ≤ 255
    → read_zone (quote n) (s ++ rest) ≡ valued s (read_zone (quote (n + length s)) rest)
unfolding read_zone
read_zone-quote n [] rest u h = ap (λ m. read_zone (quote m) rest) (omega arith)
read_zone-quote n (c ∷ s) rest ((_, (q, _)), u) h =
    let other : (c == b'"') ≡ false = ground arith in
    let fits : ltb n 255 ≡ true = ground arith in
    rw (other, fits)
      (ap (value_char c) (
        read_zone-quote (suc n) s rest u (omega arith)
        ∙ ap (λ m. valued s (read_zone (quote m) rest)) (omega arith)))

-- A comment ends with its line.
pub read_zone-comment :
    (s rest : Text)
    → All (λ c. c ≢ b'\n') s
    → read_zone comment (s ++ rest) ≡ read_zone comment rest
unfolding read_zone
read_zone-comment [] rest u = refl
read_zone-comment (c ∷ s) rest (n, u) =
    let other : (c == b'\n') ≡ false = ground arith in rw other (read_zone-comment s rest u)

pub named_one : (s n v : Text) (rs : Records) → named s ((n, v) ∷ rs) ≡ (s ++ n, v) ∷ rs
named_one [] n v rs = refl
named_one (c ∷ s) n v rs = ap (name_char c) (named_one s n v rs)

valued_one : (s n v : Text) (rs : Records) → valued s ((n, v) ∷ rs) ≡ (n, s ++ v) ∷ rs
valued_one [] n v rs = refl
valued_one (c ∷ s) n v rs = ap (value_char c) (valued_one s n v rs)

abbrev pub concat : List Text → Text
concat [] = []
concat (c ∷ cs) = c ++ concat cs

pub read_zone-chunk_lines :
    (cs : List Text) (rest : Text)
    → All (All IsQuotable) cs
    → All (λ c. length c ≤ 255) cs
    → read_zone body (chunk_lines cs ++ (codes ")\n" ++ rest))
      ≡ ([], concat cs) ∷ read_zone line rest
unfolding read_zone
read_zone-chunk_lines [] rest u l = refl
read_zone-chunk_lines (c ∷ cs) rest (h, u) (m, l) =
    ap (read_zone (quote 0)) (append_assoc c (codes "\"\n" ++ chunk_lines cs) (codes ")\n" ++ rest))
    ∙ read_zone-quote 0 c (codes "\"\n" ++ chunk_lines cs ++ (codes ")\n" ++ rest)) h
        (omega (arith, m))
    ∙ ap (valued c) (read_zone-chunk_lines cs rest u l)
    ∙ valued_one c [] (concat cs) (read_zone line rest)
