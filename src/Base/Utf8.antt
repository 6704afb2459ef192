-- ===== src/Base/Utf8.antt =====
-- Texts and bytes. `String::from_utf8_lossy`: a maximal invalid part of the bytes becomes one U+FFFD.
use carriers.Base.Tests.{leb, ltb, if◌then◌else◌, ◌==◌, nat_eq}
use carriers.Base.Str.{Text, Bytes}
use Prim.Native.Nat.{ℕ, ◌+◌, ◌-◌, ◌*◌, ◌/◌, ◌%◌, ◌<◌}
use mathlib.Core.Bool.{Bool, true, ◌&&◌}
use mathlib.Core.Path.{◌≡◌, refl, sym, ap, ◌∙◌}
use native.Mathlib.Omega.{arith}
use carriers.Base.Lists.{All}
use mathlib.Core.List.{[], ◌∷◌, ◌++◌, append_assoc}

-- Between two characters, or inside one: the bytes still to come, the range of the next one, and
-- the bits read so far.
pub data Decoder : Type 0 where
  between : Decoder
  inside : ℕ → ℕ → ℕ → ℕ → Decoder

abbrev replacement : ℕ
replacement = 0xFFFD

in_range : ℕ → ℕ → ℕ → Bool
in_range lo hi b = leb lo b && leb b hi

-- What a byte adds to the text, and the decoder after it.
first : ℕ → Text × Decoder
unfolding in_range
first b =
    if ltb b 0x80
    then (b ∷ [], between)
    else if in_range 0xC2 0xDF b
    then ([], inside 1 0x80 0xBF (b - 0xC0))
    else if b == 0xE0
    then ([], inside 2 0xA0 0xBF 0)
    else if b == 0xED
    then ([], inside 2 0x80 0x9F 13)
    else if in_range 0xE1 0xEF b
    then ([], inside 2 0x80 0xBF (b - 0xE0))
    else if b == 0xF0
    then ([], inside 3 0x90 0xBF 0)
    else if in_range 0xF1 0xF3 b
    then ([], inside 3 0x80 0xBF (b - 0xF0))
    else if b == 0xF4
    then ([], inside 3 0x80 0x8F 4)
    else (replacement ∷ [], between)

-- A byte that does not continue a character starts anew behind the replacement.
feed : Decoder → ℕ → Text × Decoder
unfolding first in_range
feed between b = first b
feed (inside n lo hi bits) b =
    if in_range lo hi b
    then (let bits' = bits * 64 + (b - 0x80) in
        if n == 1 then (bits' ∷ [], between) else ([], inside (n - 1) 0x80 0xBF bits'))
    else (let (out, d) = first b in (replacement ∷ out, d))

decode : Decoder → Bytes → Text
unfolding feed
decode between [] = []
decode (inside n lo hi bits) [] = replacement ∷ []
decode d (b ∷ bs) = (feed d b).0 ++ decode (feed d b).1 bs

unfoldable pub from_utf8_lossy : Bytes → Text
unfolding decode
from_utf8_lossy bytes = decode between bytes

-- `as_bytes`: the encoding of a text.
encode_char : ℕ → Bytes
encode_char c =
    if ltb c 0x80
    then c ∷ []
    else if ltb c 0x800
    then (0xC0 + c / 64) ∷ (0x80 + c % 64) ∷ []
    else if ltb c 0x10000
    then (0xE0 + c / 4096) ∷ (0x80 + c / 64 % 64) ∷ (0x80 + c % 64) ∷ []
    else (0xF0 + c / 262144) ∷ (0x80 + c / 4096 % 64) ∷ (0x80 + c / 64 % 64) ∷ (0x80 + c % 64) ∷ []

unfoldable pub as_bytes : Text → Bytes
unfolding encode_char
as_bytes [] = []
as_bytes (c ∷ s) = encode_char c ++ as_bytes s

pub as_bytes_ascii : (s : Text) → All (λ c. c < 0x80) s → as_bytes s ≡ s
unfolding as_bytes
as_bytes_ascii [] h = refl
as_bytes_ascii (c ∷ s) (h, k) =
    let below : ltb c 0x80 ≡ true = ground arith in rw below (ap (λ r. c ∷ r) (as_bytes_ascii s k))

pub as_bytes-append : (s t : Text) → as_bytes (s ++ t) ≡ as_bytes s ++ as_bytes t
unfolding as_bytes
as_bytes-append [] t = refl
as_bytes-append (c ∷ s) t =
    ap (λ r. encode_char c ++ r) (as_bytes-append s t)
    ∙ sym (append_assoc (encode_char c) (as_bytes s) (as_bytes t))

-- ASCII bytes are their own text.
pub from_utf8_lossy_ascii : (s : Bytes) → All (λ c. c < 0x80) s → from_utf8_lossy s ≡ s
unfolding from_utf8_lossy
from_utf8_lossy_ascii [] h = refl
from_utf8_lossy_ascii (c ∷ s) (h, k) =
    let below : ltb c 0x80 ≡ true = ground arith in
    rw below (ap (λ r. c ∷ r) (from_utf8_lossy_ascii s k))

-- "é" in two bytes, a lone continuation byte, and a character that is cut short.
lossy_sample :
    from_utf8_lossy (0xC3 ∷ 0xA9 ∷ 0x80 ∷ b'a' ∷ 0xE2 ∷ 0x82 ∷ [])
    ≡ 0xE9 ∷ 0xFFFD ∷ b'a' ∷ 0xFFFD ∷ []
unfolding from_utf8_lossy
lossy_sample = refl
