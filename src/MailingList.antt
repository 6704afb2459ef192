-- ===== src/MailingList.antt =====
-- `crates/carriers-core/src/list.rs` and `config.rs`: the configuration of a list and of the
-- daemon, and a loaded list. Keys are loaded by a parameter, the part of `mail_auth` in `crypto.rs`.
use carriers.Base.{
  ℕ, Text, Bool, not, ◌&&◌, Option, none, some, List, [], ◌∷◌, ◌++◌, codes, Result, ok, err, config,
  and_then, if◌then◌else◌, ltb, length, is_empty, rsplit_once, replace,
}
use carriers.Base.Maybe.{unwrap_or}

pub data Algorithm : Type 0 where
  rsa ed25519 : Algorithm

pub record KeyConfig : Type 0 where
  pub selector : Text
  pub key_file : Text
  pub algorithm : Algorithm
  pub domain : Option Text

pub record ListConfig : Type 0 where
  pub posting_address : Text
  pub display_name : Option Text
  pub list_id : Option Text
  pub owner : Option Text
  pub archive_url : Option Text
  pub help_url : Option Text
  pub subscribe_url : Option Text
  pub unsubscribe_url : Option Text
  pub unsubscribe_oneclick : Option Text
  pub subject_prefix : Option Text
  pub dkim : KeyConfig
  pub arc : KeyConfig
  pub dkim2 : KeyConfig
  pub policy : Text
  pub members_file : Option Text

-- `BounceConfig` over the type of scores, and its defaults from the numbers five, three and one.
pub record BounceConfig (F : Type 0) : Type 0 where
  pub threshold : F
  pub hard_weight : F
  pub soft_weight : F

abbrev pub default_bounce : {F : Type 0} → (ℕ → F) → BounceConfig F
default_bounce number = record {
  threshold = number 5;
  hard_weight = number 3;
  soft_weight = number 1;
}

pub data Protocol : Type 0 where
  lmtp smtp : Protocol

pub record Smarthost : Type 0 where
  pub host : Text
  pub port : ℕ
  pub implicit_tls : Bool
  pub allow_plaintext : Bool

pub record Config (F : Type 0) : Type 0 where
  pub hostname : Text
  pub protocol : Protocol
  pub smarthost : Smarthost
  pub db_path : Text
  pub lists_dir : Text
  pub sieve_scripts : Option Text
  pub archive_dir : Option Text
  pub bounce : BounceConfig F

-- What a list signs with. A signer or sealer is a key with a domain, a selector and headers.
pub record Signer (Key : Type 0) : Type 0 where
  pub key : Key
  pub domain : Text
  pub selector : Text
  pub headers : List Text

-- `SIGNED_HEADERS`
abbrev pub signed_headers : List Text
signed_headers =
    codes "From"
    ∷ codes "Sender"
    ∷ codes "Reply-To"
    ∷ codes "To"
    ∷ codes "Cc"
    ∷ codes "Subject"
    ∷ codes "Date"
    ∷ codes "Message-ID"
    ∷ codes "In-Reply-To"
    ∷ codes "References"
    ∷ codes "MIME-Version"
    ∷ codes "Content-Type"
    ∷ codes "Content-Transfer-Encoding"
    ∷ codes "List-Id"
    ∷ codes "List-Post"
    ∷ codes "List-Unsubscribe"
    ∷ codes "List-Subscribe"
    ∷ codes "List-Help"
    ∷ codes "List-Archive"
    ∷ codes "List-Owner"
    ∷ []

pub record MailingList (Key : Type 0) : Type 0 where
  pub name : Text
  pub cfg : ListConfig
  pub domain : Text
  pub signer : Signer Key
  pub sealer : Signer Key
  pub dkim2_signer : Signer Key

-- `posting_address.rsplit('@').next()`
abbrev pub last_part : Text → Text
last_part address = elim (rsplit_once b'@' address) [ none ↦ address | some (_, d) ↦ d ]

-- The domain of a posting address: what follows its last `@`, if that is there and not empty.
unfoldable pub posting_domain : Text → Result Text
unfolding rsplit_once
posting_domain address =
    let d = last_part address in
    if not (is_empty d) && ltb (length d) (length address)
    then ok d
    else err (config (codes "invalid posting_address `" ++ address ++ codes "`"))

abbrev pub make_signer : {Key : Type 0} → KeyConfig → Text → List Text → Key → Signer Key
make_signer cfg domain headers key = record {
  key = key;
  domain = unwrap_or cfg.domain domain;
  selector = cfg.selector;
  headers = headers;
}

module _ {Key : Type 0} (load_dkim_key : KeyConfig → Result Key) where
  -- `List::from_config`
  unfoldable pub from_config : Text → ListConfig → Result (MailingList Key)
  unfolding posting_domain
  from_config name cfg = and_then (posting_domain cfg.posting_address) λ domain.
      and_then (load_dkim_key cfg.dkim) λ dkim. and_then (load_dkim_key cfg.arc) λ arc.
        and_then (load_dkim_key cfg.dkim2) λ dkim2. ok (record {
          name = name;
          cfg = cfg;
          domain = domain;
          signer = make_signer cfg.dkim domain signed_headers dkim;
          sealer = make_signer cfg.arc domain signed_headers arc;
          dkim2_signer = make_signer cfg.dkim2 domain [] dkim2;
        })

unfoldable pub list_id : {Key : Type 0} → MailingList Key → Text
unfolding replace
list_id list = unwrap_or list.cfg.list_id (replace b'@' b'.' list.cfg.posting_address)
