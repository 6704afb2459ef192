-- ===== src/Bounce.antt =====
-- `crates/carriers-core/src/bounce.rs`: how a bounce is classified by its `Status:` field.
pub mod Decisive
pub mod Classify
use carriers.Base.{
  ℕ, Text, Bytes, Option, none, some, List, [], ◌∷◌, codes, ◌==◌, text_eq, text_beq, if◌then◌else◌,
  eq_ignore_ascii_case, take, drop, trim, trim_start, splitn, lines, from_utf8_lossy, lower, ◌≡◌,
  refl,
}
use carriers.Base.Maybe.{◌>>=◌}

pub data BounceKind : Type 0 where
  hard soft unknown : BounceKind

-- The value of a `Status:` line. The first seven bytes of a line are its first seven characters if
-- they spell the field's name.
unfoldable pub status_value : Text → Option Text
unfolding trim_start eq_ignore_ascii_case trim text_beq lower
status_value line =
    let l = trim_start line in
    if eq_ignore_ascii_case (take 7 l) (codes "status:") then some (trim (drop 7 l)) else none

-- The parts of `value.splitn(3, '.')`: the class counts if a subject follows it.
unfoldable pub class_kind : List Text → Option BounceKind
unfolding text_beq
class_kind [] = none
class_kind (class ∷ []) = none
class_kind (class ∷ subject ∷ rest) =
    if class == codes "5" then some hard else if class == codes "4" then some soft else none

unfoldable pub line_kind : Text → Option BounceKind
unfolding status_value class_kind splitn
line_kind line = do value ← status_value line; class_kind (splitn 3 b'.' value)

-- The loop over the lines: the first that is decisive is returned.
unfoldable pub first_kind : List Text → BounceKind
unfolding line_kind
first_kind [] = unknown
first_kind (line ∷ rest) = elim (line_kind line) [ some kind ↦ kind | none ↦ first_kind rest ]

unfoldable pub classify : Bytes → BounceKind
unfolding first_kind lines from_utf8_lossy
classify raw = first_kind (lines (from_utf8_lossy raw))

hard_dsn : classify (codes "Action: failed\r\nstatus: 5.1.1\r\n\r\n--b--\r\n") ≡ hard
unfolding classify
hard_dsn = refl
