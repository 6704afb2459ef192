-- ===== src/Testkit/Sender.antt =====
-- `crates/carriers-testkit/src/sender.rs`: a test message, crafted or replayed, and its submission.
-- The clock, the signers of `mail_auth` and the mail client are parameters.
pub mod Crlf
pub mod Sent
pub mod Lines
pub mod Ids
use carriers.Base.{
  ℕ, ◌+◌, ◌%◌, ◌^◌, Text, Bytes, Bool, true, false, ◌&&◌, ◌||◌, Option, none, some, List, [], ◌∷◌,
  ◌++◌, codes, show, digits, as_bytes, rsplit_once, trim_end_of, Result, Fallible, yields, fails,
  bailed, within, question, with_context, proceed_with, if◌then◌else◌, ◌==◌, nat_eq, ◌⊎◌, inl, inr,
}
use carriers.Base.Maybe.{unwrap_or}
use carriers.Files.{Files, io_result}
use carriers.Keys.{KeyLibrary, DkimKey, load_dkim_key}
use carriers.MailingList.{Algorithm, KeyConfig}

pub record AuthorKey : Type 0 where
  pub key_file : Text
  pub selector : Text
  pub domain : Text
  pub algorithm : Algorithm

pub record Draft : Type 0 where
  pub from : Text
  pub to : Text
  pub subject : Text
  pub body : Text
  pub extra_headers : List (Text × Text)

-- The loop over the bytes: every CR LF, CR and LF becomes a CR LF.
unfoldable pub normalize_crlf_bytes : Bytes → Bytes
normalize_crlf_bytes [] = []
normalize_crlf_bytes (c ∷ []) = if (c == b'\r') || (c == b'\n') then b'\r' ∷ b'\n' ∷ [] else c ∷ []
normalize_crlf_bytes (c ∷ d ∷ s) = elim ((c == b'\r') && (d == b'\n')) [
  | true ↦ b'\r' ∷ b'\n' ∷ normalize_crlf_bytes s
  | false ↦
      let rest = normalize_crlf_bytes (d ∷ s) in
      if (c == b'\r') || (c == b'\n') then b'\r' ∷ b'\n' ∷ rest else c ∷ rest
]

unfoldable pub normalize_crlf : Text → Bytes
unfolding normalize_crlf_bytes as_bytes
normalize_crlf s = normalize_crlf_bytes (as_bytes s)

-- The domain of the author, as the message id takes it.
unfoldable pub from_domain : Text → Text
unfolding rsplit_once trim_end_of
from_domain from = elim (rsplit_once b'@' from) [
  | none ↦ codes "example.com"
  | some (_, d) ↦ trim_end_of b'>' d
]

-- The clock is what `SystemTime::now` gives since the epoch, if it is not before it.
unfoldable pub message_id : Option ℕ → ℕ → Text → Text
unfolding digits from_domain
message_id nanos seq from =
    codes "<"
    ++ (show (unwrap_or nanos 0)
        ++ (codes "." ++ (show seq ++ (codes "@" ++ (from_domain from ++ codes ">")))))

abbrev pub field : Text → Text → Text
field name value = name ++ (codes ": " ++ (value ++ codes "\r\n"))

abbrev pub extra_fields : List (Text × Text) → Text
extra_fields [] = []
extra_fields ((name, value) ∷ fields) = field name value ++ extra_fields fields

unfoldable pub headers : Draft → Text → Text
headers draft id =
    field (codes "From") draft.from
    ++ (field (codes "To") draft.to
        ++ (field (codes "Subject") draft.subject
            ++ (field (codes "Date") (codes "Mon, 06 Jul 2026 10:00:00 +0000")
                ++ (field (codes "Message-ID") id
                    ++ (field (codes "MIME-Version") (codes "1.0")
                        ++ extra_fields draft.extra_headers)))))

-- `out.ends_with(b"\r\n")`
unfoldable pub ends_crlf : Bytes → Bool
ends_crlf [] = false
ends_crlf (c ∷ []) = false
ends_crlf (c ∷ d ∷ []) = (c == b'\r') && (d == b'\n')
ends_crlf (c ∷ d ∷ e ∷ s) = ends_crlf (d ∷ e ∷ s)

abbrev pub closed : Bytes → Bytes
closed out = if ends_crlf out then out else out ++ codes "\r\n"

-- `build`, with the counter `SEQ` before and after, an `AtomicU64`.
unfoldable pub build : Draft → Option ℕ → ℕ → Bytes × ℕ
unfolding message_id headers normalize_crlf ends_crlf as_bytes
build draft nanos seq = (
  closed (
      as_bytes (headers draft (message_id nanos seq draft.from))
      ++ (codes "\r\n" ++ normalize_crlf draft.body)),
  (seq + 1) % 2 ^ 64,
)

abbrev pub author_signed_headers : List Text
author_signed_headers =
    codes "From"
    ∷ codes "To"
    ∷ codes "Subject"
    ∷ codes "Date"
    ∷ codes "Message-ID"
    ∷ codes "MIME-Version"
    ∷ []

-- The signers of `mail_auth`, with the key, the domain and the selector: the header that they
-- print, or the text of their error. A hop is its sender and its recipients.
pub record AuthorSigner (Key : Type 0) : Type 0 where
  pub sign : Key → Text → Text → List Text → Bytes → Text ⊎ Text
  pub sign_dkim2 : Key → Text → Text → Bytes → Text → List Text → Text ⊎ Text

abbrev pub prepend : Text → Bytes → Text ⊎ Text → Fallible Bytes
prepend what raw (inl header) = yields (as_bytes header ++ raw)
prepend what raw (inr e) = fails (bailed (what ++ (codes ": " ++ e)))

module _ (library : KeyLibrary) (files : Files) (signer : AuthorSigner (DkimKey library)) where
  abbrev pub author_config : AuthorKey → KeyConfig
  author_config key = record {
    selector = key.selector;
    key_file = key.key_file;
    algorithm = key.algorithm;
    domain = some key.domain;
  }

  unfoldable pub sign_as_author : Bytes → AuthorKey → Fallible Bytes
  unfolding load_dkim_key as_bytes
  sign_as_author raw key =
      proceed_with
        (with_context (codes "loading author DKIM key")
          (question (load_dkim_key library files (author_config key))))
        λ dkim_key.
          prepend (codes "author DKIM signing failed") raw
            (signer.sign dkim_key key.domain key.selector author_signed_headers raw)

  unfoldable pub sign_as_author_dkim2 : Bytes → AuthorKey → Text → Text → Fallible Bytes
  unfolding load_dkim_key as_bytes
  sign_as_author_dkim2 raw key mail_from rcpt_to =
      proceed_with
        (with_context (codes "loading author DKIM2 key")
          (question (load_dkim_key library files (author_config key))))
        λ dkim_key.
          prepend (codes "author DKIM2 signing failed") raw
            (signer.sign_dkim2 dkim_key key.domain key.selector raw mail_from (rcpt_to ∷ []))

  unfoldable pub load_eml : Text → Fallible Bytes
  unfolding normalize_crlf_bytes
  load_eml path =
      proceed_with
        (with_context (codes "reading " ++ path) (question (io_result (files.read path))))
        λ bytes. yields (normalize_crlf_bytes bytes)

unfoldable pub prepare : Bytes → Bytes
unfolding normalize_crlf_bytes
prepare bytes = normalize_crlf_bytes bytes

-- The client of `mail_send` for a plain submission, with the host and the port it is built for.
pub record Submission (W : Type 0) : Type 0 where
  pub accepts_host : Text → ℕ → Unit {0} ⊎ Text
  pub connect_plain : Text → ℕ → W → (Unit {0} ⊎ Text) × W
  pub send : Text → List Text → Bytes → W → (Unit {0} ⊎ Text) × W
  pub quit : W → W

abbrev pub io_fallible : Unit {0} ⊎ Text → Fallible (Unit {0})
io_fallible (inl u) = yields u
io_fallible (inr e) = fails (bailed e)

module _ {W : Type 0} (client : Submission W) where
  abbrev pub sent : (Unit {0} ⊎ Text) × W → Fallible (Unit {0}) × W
  sent (inl u, w) = (yields u, client.quit w)
  sent (inr e, w) = (with_context (codes "submitting message to ingress") (fails (bailed e)), w)

  abbrev pub submit :
      Text → ℕ → Text → Text → Bytes → (Unit {0} ⊎ Text) × W → Fallible (Unit {0}) × W
  submit host port mail_from rcpt raw (inl u, w) = sent (client.send mail_from (rcpt ∷ []) raw w)
  submit host port mail_from rcpt raw (inr e, w) = (
    with_context (codes "connecting to ingress " ++ (host ++ (codes ":" ++ show port)))
        (fails (bailed e)),
    w,
  )

  unfoldable pub inject : Text → ℕ → Text → Text → Bytes → W → Fallible (Unit {0}) × W
  unfolding digits
  inject host port mail_from rcpt raw w = elim (client.accepts_host host port) [
    | inl u ↦ submit host port mail_from rcpt raw (client.connect_plain host port w)
    | inr e ↦ (fails (bailed (codes "invalid ingress host " ++ (host ++ (codes ": " ++ e)))), w)
  ]
