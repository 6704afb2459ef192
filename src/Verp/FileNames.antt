-- ===== src/Verp/FileNames.antt =====
-- The names of archived messages, `sanitize_message_id` of `crates/carriers-core/src/pipeline.rs`.
use carriers.Base.{ℕ, Bool, ◌||◌, if◌then◌else◌, ◌==◌, nat_eq}
use carriers.Verp.{is_safe_char}

-- A character that a file name may hold: letters, digits, `.`, `-` and `_`.
abbrev pub in_name : ℕ → Bool
in_name c = is_safe_char c || (c == b'_')

abbrev replaced : ℕ → ℕ
replaced c = if is_safe_char c then c else b'_'
