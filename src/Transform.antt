-- ===== src/Transform.antt =====
-- `crates/carriers-core/src/transform.rs`: the values that the header scripts are given.
use carriers.Base.{
  Text, Option, none, some, List, [], ◌∷◌, ◌++◌, codes, if◌then◌else◌, is_empty, trim,
}
use carriers.Base.Maybe.{unwrap_or}
use carriers.MailingList.{MailingList, list_id}

abbrev pub hdr_list_id : Text
hdr_list_id = codes "vnd.carriers.hdr_list_id"

abbrev pub hdr_list_post : Text
hdr_list_post = codes "vnd.carriers.hdr_list_post"

abbrev pub hdr_list_help : Text
hdr_list_help = codes "vnd.carriers.hdr_list_help"

abbrev pub hdr_list_subscribe : Text
hdr_list_subscribe = codes "vnd.carriers.hdr_list_subscribe"

abbrev pub hdr_list_unsubscribe : Text
hdr_list_unsubscribe = codes "vnd.carriers.hdr_list_unsubscribe"

abbrev pub hdr_list_unsubscribe_post : Text
hdr_list_unsubscribe_post = codes "vnd.carriers.hdr_list_unsubscribe_post"

abbrev pub hdr_list_archive : Text
hdr_list_archive = codes "vnd.carriers.hdr_list_archive"

abbrev pub hdr_list_owner : Text
hdr_list_owner = codes "vnd.carriers.hdr_list_owner"

abbrev pub angle : Text → Text
angle v = b'<' ∷ (v ++ codes ">")

-- `angled`: the value in angle brackets, or the empty text.
abbrev pub angled : Option Text → Text
angled none = []
angled (some v) = angle v

abbrev pub mailto : Text → Text
mailto address = codes "<mailto:" ++ address ++ codes ">"

-- The two values of `List-Unsubscribe` and `List-Unsubscribe-Post`.
unfoldable pub unsubscribe_values : Option Text → Option Text → Text × Text
unsubscribe_values (some target) _ = (angle target, codes "List-Unsubscribe=One-Click")
unsubscribe_values none (some url) = (angle url, [])
unsubscribe_values none none = ([], [])

unfoldable pub list_header_env : {Key : Type 0} → MailingList Key → List (Text × Text)
unfolding unsubscribe_values
list_header_env list =
    let cfg = list.cfg in
    let description = unwrap_or cfg.display_name list.name in
    let (unsubscribe, unsubscribe_post) =
      unsubscribe_values cfg.unsubscribe_oneclick cfg.unsubscribe_url in
    (hdr_list_id, description ++ codes " <" ++ list_id list ++ codes ">")
    ∷ (hdr_list_post, mailto cfg.posting_address)
    ∷ (hdr_list_help, angled cfg.help_url)
    ∷ (hdr_list_subscribe, angled cfg.subscribe_url)
    ∷ (hdr_list_unsubscribe, unsubscribe)
    ∷ (hdr_list_unsubscribe_post, unsubscribe_post)
    ∷ (hdr_list_archive, angled cfg.archive_url)
    ∷ (hdr_list_owner, elim cfg.owner [ none ↦ [] | some o ↦ mailto o ])
    ∷ []

abbrev pub munge_from : Text
munge_from = codes "vnd.carriers.munge_from"

abbrev pub reply_to : Text
reply_to = codes "vnd.carriers.reply_to"

-- The first address of a `From` header, as the mail parser gives it.
pub record FromAddress : Type 0 where
  pub name : Option Text
  pub address : Option Text

-- `unwrap_or_default` on the parsed address
abbrev pub parts_of : Option FromAddress → Option Text × Option Text
parts_of none = (none, none)
parts_of (some a) = (a.name, a.address)

-- A name that is not empty, else the address, else the posting address of the list.
abbrev pub attribution : Option Text → Option Text → Text → Text
attribution (some n) address posting = if is_empty n then unwrap_or address posting else n
attribution none address posting = unwrap_or address posting

-- `munge_from_env` on the `From` address of the message.
unfoldable pub munge_from_env :
    {Key : Type 0} → MailingList Key → Option FromAddress → List (Text × Text)
munge_from_env list from =
    let posting = list.cfg.posting_address in
    let description = unwrap_or list.cfg.display_name list.name in
    let (name, address) = parts_of from in
    (
      munge_from,
      b'"'
          ∷ (attribution name address posting
              ++ codes " via "
              ++ description
              ++ codes "\" <"
              ++ posting
              ++ codes ">"),
    )
    ∷ (reply_to, unwrap_or address posting)
    ∷ []

abbrev pub subject_prefix : Text
subject_prefix = codes "vnd.carriers.subject_prefix"

unfoldable pub subject_prefix_env : {Key : Type 0} → MailingList Key → Option (List (Text × Text))
unfolding trim
subject_prefix_env list = elim list.cfg.subject_prefix [
  | none ↦ none
  | some p ↦ if is_empty (trim p) then none else some ((subject_prefix, trim p) ∷ [])
]
