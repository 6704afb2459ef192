-- ===== src/Testkit/Sender/Crlf.antt =====
-- `normalize_crlf_bytes` of `crates/carriers-testkit/src/sender.rs`: the line ends it leaves.
use carriers.Base.{
  ℕ, Bytes, Bool, true, false, not, ◌&&◌, ◌||◌, [], ◌∷◌, map, if◌then◌else◌, ◌==◌, nat_eq, arith,
  ◌≡◌, refl,
}
use carriers.Testkit.Sender.{normalize_crlf_bytes}

abbrev pub is_break : ℕ → Bool
is_break c = (c == b'\r') || (c == b'\n')

-- Every CR is followed by an LF, and every LF follows a CR.
abbrev pub is_crlf : Bytes → Bool
is_crlf [] = true
is_crlf (c ∷ []) = not (is_break c)
is_crlf (c ∷ d ∷ s) =
    if c == b'\r' then (d == b'\n') && is_crlf s else not (c == b'\n') && is_crlf (d ∷ s)

is_crlf-cons : (c : ℕ) (s : Bytes) → is_break c ≡ false → is_crlf s ≡ true → is_crlf (c ∷ s) ≡ true
is_crlf-cons c [] h k = ground arith
is_crlf-cons c (d ∷ s) h k = ground arith

is_crlf-normalize_crlf_bytes : (s : Bytes) → is_crlf (normalize_crlf_bytes s) ≡ true
unfolding normalize_crlf_bytes
is_crlf-normalize_crlf_bytes [] = refl
is_crlf-normalize_crlf_bytes (c ∷ []) = ground arith
is_crlf-normalize_crlf_bytes (c ∷ d ∷ s) = ground (
  arith,
  is_crlf-normalize_crlf_bytes s,
  is_crlf-normalize_crlf_bytes (d ∷ s),
  is_crlf-cons c (normalize_crlf_bytes (d ∷ s)),
)

normalize_crlf_bytes-fixed : (s : Bytes) → is_crlf s ≡ true → normalize_crlf_bytes s ≡ s
unfolding normalize_crlf_bytes
normalize_crlf_bytes-fixed [] h = refl
normalize_crlf_bytes-fixed (c ∷ []) h = ground arith
normalize_crlf_bytes-fixed (c ∷ d ∷ s) h =
    ground (arith, normalize_crlf_bytes-fixed s, normalize_crlf_bytes-fixed (d ∷ s))

-- Line ends in three passes: CR LF becomes LF, then every CR that is left becomes LF, and then every
-- LF becomes CR LF.
abbrev pub unix : Bytes → Bytes
unix [] = []
unix (c ∷ []) = c ∷ []
unix (c ∷ d ∷ s) = elim ((c == b'\r') && (d == b'\n')) [
  | true ↦ b'\n' ∷ unix s
  | false ↦ c ∷ unix (d ∷ s)
]

abbrev pub without_cr : Bytes → Bytes
without_cr s = map (λ c. if c == b'\r' then b'\n' else c) s

abbrev pub with_crlf : Bytes → Bytes
with_crlf [] = []
with_crlf (c ∷ s) = if c == b'\n' then b'\r' ∷ b'\n' ∷ with_crlf s else c ∷ with_crlf s

normalize_crlf_bytes-passes : (s : Bytes) → normalize_crlf_bytes s ≡ with_crlf (without_cr (unix s))
unfolding normalize_crlf_bytes
normalize_crlf_bytes-passes [] = refl
normalize_crlf_bytes-passes (c ∷ []) = ground arith
normalize_crlf_bytes-passes (c ∷ d ∷ s) =
    ground (arith, normalize_crlf_bytes-passes s, normalize_crlf_bytes-passes (d ∷ s))

-- Normalising makes exactly one CR LF of every line terminator, CR LF, CR or LF, and leaves the other
-- bytes alone, as the three passes do; every CR and LF of the result is in a CR LF; and normalising
-- it again changes nothing.
pub normalize_crlf_bytes_lem :
    (s : Bytes)
    → (normalize_crlf_bytes s ≡ with_crlf (without_cr (unix s)))
      × (is_crlf (normalize_crlf_bytes s) ≡ true)
      × (normalize_crlf_bytes (normalize_crlf_bytes s) ≡ normalize_crlf_bytes s)
normalize_crlf_bytes_lem s = (
  normalize_crlf_bytes-passes s,
  is_crlf-normalize_crlf_bytes s,
  normalize_crlf_bytes-fixed (normalize_crlf_bytes s) (is_crlf-normalize_crlf_bytes s),
)
