-- ===== src/Smtp/Data.antt =====
-- `read_data` of `crates/carriers/src/smtp.rs`: the message that a client sends with dots stuffed.
use carriers.Base.{
  Bytes, false, List, [], ◌∷◌, ◌++◌, map, codes, length, if◌then◌else◌, ◌==◌, nat_eq, text_eq,
  text_beq, ◌≤◌, arith, ◌≡◌, refl, Bool-cases, inl, inr,
}
use carriers.Smtp.{read_data, unstuffed, is_end}

-- What a client sends of a line: a dot more if it begins with one (RFC 5321, 4.5.2).
abbrev pub stuffed : Bytes → Bytes
stuffed [] = []
stuffed (c ∷ line) = if c == b'.' then b'.' ∷ c ∷ line else c ∷ line

abbrev pub concat : List Bytes → Bytes
concat [] = []
concat (line ∷ lines) = line ++ concat lines

stuffed-end : (line : Bytes) → is_end (stuffed line) ≡ false
stuffed-end [] = unfold text_beq in refl
stuffed-end (c ∷ line) = unfold text_beq in ground arith

unstuffed-stuffed : (line : Bytes) → unstuffed (stuffed line) ≡ line
unfolding unstuffed
unstuffed-stuffed [] = refl
unstuffed-stuffed (c ∷ line) = ground arith

-- A message that the client sends line by line with dots stuffed, then the line that ends it, is
-- read as its lines were before, byte for byte, and what the client sent after it is left.
pub read_data-stuffed :
    (message rest : List Bytes)
    → read_data (map stuffed message ++ (codes ".\r\n" ∷ rest)) ≡ (concat message, rest)
unfolding read_data
read_data-stuffed [] rest = unfold text_beq in refl
read_data-stuffed (line ∷ message) rest =
    rw (stuffed-end line, read_data-stuffed message rest, unstuffed-stuffed line) refl

-- A client that disconnects before the line that ends the message leaves the same result as one
-- that ended it there: the part of the message that was sent is taken for a whole message.
pub read_data-truncated :
    (message : List Bytes)
    → read_data (map stuffed message) ≡ read_data (map stuffed message ++ (codes ".\r\n" ∷ []))
unfolding read_data
read_data-truncated [] = unfold text_beq in refl
read_data-truncated (line ∷ message) = rw (stuffed-end line, read_data-truncated message) refl

-- What is left after a message is shorter than what was to be read, unless that was nothing.
pub read_data-length : (lines : List Bytes) → length (read_data lines).1 ≤ length lines
unfolding read_data
read_data-length [] = omega arith
read_data-length (line ∷ lines) = elim (Bool-cases (is_end line)) [
  | inl h ↦ rw h (omega arith)
  | inr h ↦ rw h (omega (arith, read_data-length lines))
]
