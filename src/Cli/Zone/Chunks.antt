-- ===== src/Cli/Zone/Chunks.antt =====
-- The chunks of a TXT record, `split_txt` in `crates/carriers/src/main.rs`.
use carriers.Base.{
  ℕ, zero, suc, ◌≤◌, ◌<◌, Text, List, [], ◌∷◌, ◌++◌, map, take, drop, length, take-append-drop,
  length-take, from_utf8_lossy, from_utf8_lossy_ascii, as_bytes_ascii, All, nat_eq, arith, ◌≡◌,
  refl, ap, ◌∙◌,
}
use carriers.Cli.Zone.{chunks, split_txt}
use carriers.Cli.Zone.Quoted.{IsQuotable, concat}

length-drop : {A : Type 0} (n : ℕ) (xs : List A) → length (drop n xs) ≤ length xs
length-drop zero xs = omega arith
length-drop (suc n) [] = omega arith
length-drop (suc n) (x ∷ xs) = omega (arith, length-drop n xs)

-- Of at most 255 bytes, none of them empty.
abbrev pub Fits : Text → Type 0
Fits chunk = (1 ≤ length chunk) × (length chunk ≤ 255)

module _ (P : ℕ → Type 0) where
  All-taken : (n : ℕ) (xs : Text) → All P xs → All P (take n xs)
  All-taken zero xs u = tt
  All-taken (suc n) [] u = tt
  All-taken (suc n) (x ∷ xs) (p, u) = (p, All-taken n xs u)

  All-drop : (n : ℕ) (xs : Text) → All P xs → All P (drop n xs)
  All-drop zero xs u = u
  All-drop (suc n) [] u = tt
  All-drop (suc n) (x ∷ xs) (p, u) = All-drop n xs u

  chunks-All :
      (fuel : ℕ) (xs : Text)
      → length xs ≤ fuel
      → All P xs
      → (concat (chunks fuel 255 xs) ≡ xs)
        × (All Fits (chunks fuel 255 xs) × All (All P) (chunks fuel 255 xs))
  unfolding chunks
  chunks-All zero [] h u = (refl, (tt, tt))
  chunks-All zero (x ∷ xs) h u = absurd (omega arith)
  chunks-All (suc fuel) [] h u = (refl, (tt, tt))
  chunks-All (suc fuel) (x ∷ xs) h (p, u) =
      let (e, (f, g)) =
        chunks-All fuel (drop 254 xs) (omega (arith, length-drop 254 xs)) (All-drop 254 xs u) in
      (
        ap (λ r. x ∷ (take 254 xs ++ r)) e ∙ ap (λ r. x ∷ r) (take-append-drop 254 xs),
        (((omega arith, omega (arith, length-take 254 xs)), f), ((p, All-taken 254 xs u), g)),
      )

quotable-ascii : (s : Text) → All IsQuotable s → All (λ c. c < 0x80) s
quotable-ascii [] u = tt
quotable-ascii (c ∷ s) ((h, _), u) = (h, quotable-ascii s u)

map-lossy : (cs : List Text) → All (All IsQuotable) cs → map from_utf8_lossy cs ≡ cs
map-lossy [] u = refl
map-lossy (c ∷ cs) (h, u) = rw (from_utf8_lossy_ascii c (quotable-ascii c h), map-lossy cs u) refl

-- The chunks of a value without quotes and beyond ASCII are the value, each of 1 to 255 bytes.
pub split_txt-concat :
    (value : Text)
    → All IsQuotable value
    → (concat (split_txt value) ≡ value)
      × (All Fits (split_txt value) × All (All IsQuotable) (split_txt value))
unfolding split_txt
split_txt-concat value u =
    let parts = chunks-All IsQuotable (length value) value (omega arith) u in
    rw
      (
        as_bytes_ascii value (quotable-ascii value u),
        map-lossy (chunks (length value) 255 value) parts.1.1,
      )
      parts
