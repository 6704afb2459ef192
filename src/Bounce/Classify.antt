-- ===== src/Bounce/Classify.antt =====
-- What `classify` of `crates/carriers-core/src/bounce.rs` makes of a delivery report.
use carriers.Base.{
  Text, Bytes, false, none, some, List, [], ◌∷◌, ◌++◌, codes, All, All-append, ◌<◌, ◌==◌, nat_eq,
  text_eq, contains_char, lines, lines_from, strip_cr, from_utf8_lossy_ascii, arith, ◌≡◌, refl, ◌∙◌,
  ap, sym, text_beq,
}
use mathlib.Core.List.{append_assoc, append-nil}
use carriers.Bounce.{BounceKind, unknown, first_kind, classify}
use carriers.Bounce.Decisive.{decisive, line_kind-decisive}

-- A report as it is sent: each line ends in a carriage return and a line feed.
abbrev pub render : List Text → Bytes
render [] = []
render (line ∷ rest) = line ++ (codes "\r\n" ++ render rest)

abbrev pub IsAscii : Text → Type 0
IsAscii line = All (λ c. c < 0x80) line

abbrev pub IsLine : Text → Type 0
IsLine line = IsAscii line × (contains_char b'\n' line ≡ false)

render-IsAscii : (ls : List Text) → All IsLine ls → IsAscii (render ls)
render-IsAscii [] h = tt
render-IsAscii (line ∷ rest) ((a, _), h) =
    All-append (λ c. c < 0x80) line (codes "\r\n" ++ render rest) a
      (omega arith, (omega arith, render-IsAscii rest h))

strip_cr-return : (s : Text) → strip_cr (s ++ (b'\r' ∷ [])) ≡ s
unfolding strip_cr
strip_cr-return [] = refl
strip_cr-return (c ∷ []) = refl
strip_cr-return (c ∷ d ∷ s) = ap (λ r. c ∷ r) (strip_cr-return (d ∷ s))

lines_from-line :
    (cur line rest : Text)
    → contains_char b'\n' line ≡ false
    → lines_from cur (line ++ (codes "\r\n" ++ rest)) ≡ (cur ++ line) ∷ lines_from [] rest
unfolding lines_from
lines_from-line cur [] rest h =
    ap (λ l. l ∷ lines_from [] rest) (strip_cr-return cur ∙ sym (append-nil cur))
lines_from-line cur (c ∷ line) rest h =
    let e : (c == b'\n') ≡ false = unfold contains_char in ground arith in
    let k : contains_char b'\n' line ≡ false = unfold contains_char in ground arith in
    rw (lines_from, e)
      (lines_from-line (cur ++ c ∷ []) line rest k
        ∙ ap (λ l. l ∷ lines_from [] rest) (append_assoc cur (c ∷ []) line))

lines-render : (ls : List Text) → All IsLine ls → lines_from [] (render ls) ≡ ls
lines-render [] h = unfold lines_from text_beq in refl
lines-render (line ∷ rest) ((_, n), h) =
    lines_from-line [] line (render rest) n ∙ ap (λ l. line ∷ l) (lines-render rest h)

-- No decision by a line.
abbrev pub IsSilent : Text → Type 0
IsSilent line = decisive line ≡ none

first_kind-silent :
    (ls rest : List Text) → All IsSilent ls → first_kind (ls ++ rest) ≡ first_kind rest
unfolding first_kind
first_kind-silent [] rest h = refl
first_kind-silent (line ∷ ls) rest (e, h) =
    rw (first_kind, line_kind-decisive line, e) (first_kind-silent ls rest h)

classify-render : (ls : List Text) → All IsLine ls → classify (render ls) ≡ first_kind ls
unfolding classify lines
classify-render ls h =
    rw (from_utf8_lossy_ascii (render ls) (render-IsAscii ls h), lines-render ls h) refl

All-left : (xs ys : List Text) → All IsLine (xs ++ ys) → All IsLine xs
All-left [] ys h = tt
All-left (x ∷ xs) ys (p, h) = (p, All-left xs ys h)

-- A report in ASCII whose lines end in CR LF is hard or soft as its first decisive line says, whatever
-- follows that line, and unknown if no line is decisive. A line is decisive if it has, after white
-- space, the name `status:` in any case and then, after white space, a `5` (hard) or a `4` (soft)
-- right before a dot.
pub classify_lem :
    (before after : List Text) (line : Text) (kind : BounceKind)
    → All IsLine (before ++ (line ∷ after))
    → All IsSilent before
    → decisive line ≡ some kind
    → (classify (render (before ++ (line ∷ after))) ≡ kind) × (classify (render before) ≡ unknown)
unfolding first_kind
classify_lem before after line kind h s k = (
  classify-render (before ++ (line ∷ after)) h
      ∙ first_kind-silent before (line ∷ after) s
      ∙ rw (first_kind, line_kind-decisive line, k) refl,
  classify-render before (All-left before (line ∷ after) h)
      ∙ ap first_kind (sym (append-nil before))
      ∙ first_kind-silent before [] s,
)
