-- ===== src/Testkit/Sender/Sent.antt =====
-- The lines of a message that `crates/carriers-testkit/src/sender.rs` builds, as an SMTP client
-- sends them and the listener of `crates/carriers/src/smtp.rs` reads them.
use carriers.Base.{
  ℕ, Bytes, Bool, true, false, Option, List, [], ◌∷◌, ◌++◌, map, all, codes, as_bytes,
  if◌then◌else◌, ◌==◌, nat_eq, arith, ◌≡◌, refl, sym, ap, ◌∙◌, Bool-cases, inl, inr,
}
use carriers.Smtp.{read_data}
use carriers.Smtp.Data.{stuffed, concat, read_data-stuffed}
use carriers.Testkit.Sender.{Draft, build, headers, message_id, closed, ends_crlf, normalize_crlf}

-- A byte before the lines of what follows it.
abbrev pub glue : ℕ → List Bytes → List Bytes
glue c [] = (c ∷ []) ∷ []
glue c (l ∷ ls) = (c ∷ l) ∷ ls

-- What `read_until` of a line feed gives, until the end.
abbrev next_line : ℕ → List Bytes → List Bytes
next_line c rest = if c == b'\n' then (c ∷ []) ∷ rest else glue c rest

unfoldable pub cut_lines : Bytes → List Bytes
cut_lines [] = []
cut_lines (c ∷ s) = next_line c (cut_lines s)

abbrev pub ends_lf : Bytes → Bool
ends_lf [] = false
ends_lf (c ∷ []) = c == b'\n'
ends_lf (c ∷ d ∷ s) = ends_lf (d ∷ s)

concat-glue : (c : ℕ) (ls : List Bytes) → concat (glue c ls) ≡ c ∷ concat ls
concat-glue c [] = refl
concat-glue c (l ∷ ls) = refl

concat-cut_lines : (s : Bytes) → concat (cut_lines s) ≡ s
unfolding cut_lines
concat-cut_lines [] = refl
concat-cut_lines (c ∷ s) = ground (arith, concat-cut_lines s, concat-glue c (cut_lines s))

-- The first line begins with the first byte.
cut_lines-head :
    (c : ℕ) (s : Bytes) → (l : Bytes) × ((ls : List Bytes) × (cut_lines (c ∷ s) ≡ (c ∷ l) ∷ ls))
unfolding cut_lines
cut_lines-head c s =
    elim (c == b'\n')
      as (λ b.
        (l : Bytes) × ((ls : List Bytes) × ((if b
              then (c ∷ []) ∷ cut_lines s
              else glue c (cut_lines s))
            ≡ (c ∷ l) ∷ ls))) [ true ↦ ([], (cut_lines s, refl)) | false ↦ glued (cut_lines s) ]
  where
    glued : (ls : List Bytes) → (l : Bytes) × ((ls' : List Bytes) × (glue c ls ≡ (c ∷ l) ∷ ls'))
    glued [] = ([], ([], refl))
    glued (l ∷ ls) = (l, (ls, refl))

all-next_line :
    (c d : ℕ) (l : Bytes) (ls : List Bytes)
    → all ends_lf (next_line c ((d ∷ l) ∷ ls)) ≡ all ends_lf ((d ∷ l) ∷ ls)
all-next_line c d l ls = ground arith

all-cut_lines : (c : ℕ) (s : Bytes) → all ends_lf (cut_lines (c ∷ s)) ≡ ends_lf (c ∷ s)
all-cut_lines c [] = unfold cut_lines in ground arith
all-cut_lines c (d ∷ s) =
    let (l, (ls, e)) = cut_lines-head d s in
    let first : cut_lines (c ∷ d ∷ s) ≡ next_line c (cut_lines (d ∷ s)) =
      unfold cut_lines in refl in
    ap (all ends_lf) (first ∙ ap (next_line c) e)
    ∙ all-next_line c d l ls
    ∙ sym (ap (all ends_lf) e)
    ∙ all-cut_lines d s

ends_crlf-append : (s : Bytes) → ends_crlf (s ++ (b'\r' ∷ (b'\n' ∷ []))) ≡ true
unfolding ends_crlf
ends_crlf-append [] = refl
ends_crlf-append (c ∷ []) = refl
ends_crlf-append (c ∷ d ∷ []) = refl
ends_crlf-append (c ∷ d ∷ e ∷ s) = ends_crlf-append (d ∷ e ∷ s)

ends_crlf-closed : (s : Bytes) → ends_crlf (closed s) ≡ true
ends_crlf-closed s = elim (Bool-cases (ends_crlf s)) [
  | inl h ↦ rw h h
  | inr h ↦ rw h (ends_crlf-append s)
]

ends_lf-of : (s : Bytes) → ends_crlf s ≡ true → all ends_lf (cut_lines s) ≡ true
unfolding ends_crlf
ends_lf-of [] h = absurd (cc)
ends_lf-of (c ∷ s) h = all-cut_lines c s ∙ last (c ∷ s) h
  where
    last : (s : Bytes) → ends_crlf s ≡ true → ends_lf s ≡ true
    last [] h = absurd (cc)
    last (c ∷ []) h = absurd (cc)
    last (c ∷ d ∷ []) h = ground arith
    last (c ∷ d ∷ e ∷ s) h = last (d ∷ e ∷ s) h

-- A message that is built consists of whole lines, and a client that sends them one by one with
-- dots stuffed, and the line that ends the message, has it read back byte for byte.
pub read_data-build :
    (draft : Draft) (nanos : Option ℕ) (seq : ℕ) (rest : List Bytes)
    → (let raw = (build draft nanos seq).0 in
        (all ends_lf (cut_lines raw) ≡ true)
        × (read_data (map stuffed (cut_lines raw) ++ (codes ".\r\n" ∷ rest)) ≡ (raw, rest)))
unfolding build
read_data-build draft nanos seq rest =
    let raw = (build draft nanos seq).0 in
    (
      ends_lf-of raw (
          ends_crlf-closed (
            as_bytes (headers draft (message_id nanos seq draft.from))
            ++ (codes "\r\n" ++ normalize_crlf draft.body))),
      read_data-stuffed (cut_lines raw) rest ∙ ap (λ m. (m, rest)) (concat-cut_lines raw),
    )
