-- ===== src/Testkit/Sender/Lines.antt =====
-- The lines of a message whose header fields are plain, as `crates/carriers-testkit/src/sender.rs`
-- builds it.
use carriers.Base.{
  ℕ, all-append, All-append, ◌<◌, Text, Bytes, Bool, true, false, not, ◌&&◌, [], ◌∷◌, ◌++◌, all,
  codes, ltb, as_bytes, as_bytes-append, as_bytes_ascii, All, ◌==◌, nat_eq, text_eq, arith, ◌≡◌,
  refl, ap, ◌∙◌,
}
use mathlib.Core.List.{append_assoc}
use carriers.Testkit.Sender.{field}
use carriers.Testkit.Sender.Sent.{cut_lines}

-- ASCII without a line feed.
abbrev pub is_plain : ℕ → Bool
is_plain c = ltb c 0x80 && not (c == b'\n')

-- A line at the head of what is cut.
cut_lines-line :
    (s t : Bytes)
    → all (λ c. not (c == b'\n')) s ≡ true
    → cut_lines (s ++ (b'\n' ∷ t)) ≡ (s ++ (b'\n' ∷ [])) ∷ cut_lines t
unfolding cut_lines
cut_lines-line [] t h = refl
cut_lines-line (c ∷ s) t h =
    let rest = cut_lines-line s t (ground arith) in
    let other : (c == b'\n') ≡ false = ground arith in rw (other, rest) refl

All-plain : (s : Text) → all is_plain s ≡ true → All (λ c. c < 0x80) s
All-plain [] h = tt
All-plain (c ∷ s) h = (ground arith, All-plain s (ground arith))

all-unbroken : (s : Text) → all is_plain s ≡ true → all (λ c. not (c == b'\n')) s ≡ true
all-unbroken [] h = refl
all-unbroken (c ∷ s) h = ground (arith, all-unbroken s)

-- A plain line at the head of a text.
cut_lines-as_bytes :
    (line rest : Text) (tail : Bytes)
    → all is_plain line ≡ true
    → cut_lines (as_bytes ((line ++ codes "\n") ++ rest) ++ tail)
      ≡ (line ++ codes "\n") ∷ cut_lines (as_bytes rest ++ tail)
cut_lines-as_bytes line rest tail h =
    let whole = line ++ codes "\n" in
    let ascii =
      as_bytes_ascii whole
        (All-append (λ c. c < 0x80) line (codes "\n") (All-plain line h) (omega arith, tt)) in
    let bytes : as_bytes (whole ++ rest) ++ tail ≡ line ++ (b'\n' ∷ (as_bytes rest ++ tail)) =
      rw
        (
          as_bytes-append whole rest,
          ascii,
          append_assoc whole (as_bytes rest) tail,
          append_assoc line (codes "\n") (as_bytes rest ++ tail),
        )
        refl in
    ap cut_lines bytes ∙ cut_lines-line line (as_bytes rest ++ tail) (all-unbroken line h)

pub cut_lines-field :
    (name value rest : Text) (tail : Bytes)
    → all is_plain name ≡ true
    → all is_plain value ≡ true
    → cut_lines (as_bytes (field name value ++ rest) ++ tail)
      ≡ field name value ∷ cut_lines (as_bytes rest ++ tail)
cut_lines-field name value rest tail hn hv =
    let line = name ++ (codes ": " ++ (value ++ codes "\r")) in
    let shape : line ++ codes "\n" ≡ field name value =
      append_assoc name (codes ": " ++ (value ++ codes "\r")) (codes "\n")
      ∙ ap (λ r. name ++ (codes ": " ++ r)) (append_assoc value (codes "\r") (codes "\n")) in
    let plain = all-append is_plain name (codes ": " ++ (value ++ codes "\r")) hn (
      all-append is_plain (codes ": ") (value ++ codes "\r") refl
        (all-append is_plain value (codes "\r") hv refl)) in
    rw⁻¹ shape (cut_lines-as_bytes line rest tail plain)
