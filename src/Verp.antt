-- ===== src/Verp.antt =====
-- `crates/carriers-core/src/pipeline.rs`: the bounce address of a recipient, and the names of files
-- in the archive.
pub mod RoundTrip
pub mod FileNames
use carriers.Base.{
  ℕ, Text, Bool, ◌&&◌, ◌||◌, Option, none, some, List, [], ◌∷◌, ◌++◌, map, codes, leb, ◌==◌, nat_eq,
  if◌then◌else◌, take, is_empty, replace_first, rsplit_once, split_once_str, trim_matches,
}
use carriers.Base.Maybe.{◌>>=◌}

abbrev pub bounce_mark : Text
bounce_mark = codes "+bounce="

unfoldable pub verp : Text → Text → Text → Text
unfolding replace_first
verp list_local list_domain recipient =
    list_local ++ (bounce_mark ++ (replace_first b'@' b'=' recipient ++ (b'@' ∷ list_domain)))

-- The posting address of the list, and the recipient.
unfoldable pub decode_verp : Text → Option (Text × Text)
unfolding rsplit_once split_once_str
decode_verp address = do
  (local, domain) ← rsplit_once b'@' address
  (base_local, encoded) ← split_once_str bounce_mark local
  (user, host) ← rsplit_once b'=' encoded
  some (base_local ++ (b'@' ∷ domain), user ++ (b'@' ∷ host))

-- `c.is_ascii_alphanumeric() || c == '.' || c == '-'`
unfoldable pub is_safe_char : ℕ → Bool
is_safe_char c =
    (leb b'0' c && leb c b'9')
    || (leb b'A' c && leb c b'Z')
    || (leb b'a' c && leb c b'z')
    || (c == b'.')
    || (c == b'-')

unfoldable pub sanitize_message_id : Text → Text
unfolding is_safe_char trim_matches
sanitize_message_id id =
    let cleaned = take 120 (map (λ c. if is_safe_char c then c else b'_') id) in
    let trimmed = trim_matches b'_' cleaned in
    if is_empty trimmed then codes "no-message-id" else trimmed
