-- ===== src/Cli/Zone.antt =====
-- The DNS records of a list's domain: `setup_zone`, `txt_record` and `split_txt` in
-- `crates/carriers/src/main.rs`.
pub mod Quoted
pub mod Chunks
pub mod Records
use carriers.Base.{
  ℕ, zero, suc, Text, Bytes, Bool, Option, none, some, List, [], ◌∷◌, ◌++◌, map, codes, take, drop,
  length, is_empty, contains_char, from_utf8_lossy, as_bytes, if◌then◌else◌,
}
use carriers.Base.Maybe.{unwrap_or}
use mathlib.Core.Option
use carriers.MailingList.{Algorithm}

pub record SetupArgs : Type 0 where
  pub domain : Text
  pub algorithm : Algorithm
  pub bits : ℕ
  pub selector_dkim : Text
  pub selector_arc : Text
  pub selector_dkim2 : Text
  pub spf_ip : List Text
  pub dmarc_policy : Text
  pub dmarc_rua : Option Text
  pub out_dir : Text
  pub force : Bool

pub record SetupKey : Type 0 where
  pub label : Text
  pub selector : Text
  pub path : Text
  pub dns_txt : Text

-- `chunks(n)`, on fuel: the length of the list is enough.
unfoldable pub chunks : {A : Type 0} → ℕ → ℕ → List A → List (List A)
chunks zero n xs = []
chunks (suc fuel) n [] = []
chunks (suc fuel) n (x ∷ xs) = take n (x ∷ xs) ∷ chunks fuel n (drop n (x ∷ xs))

unfoldable pub split_txt : Text → List Text
unfolding chunks from_utf8_lossy as_bytes
split_txt value =
    let bytes = as_bytes value in map from_utf8_lossy (chunks (length bytes) 255 bytes)

-- The lines of the chunks.
abbrev pub chunk_lines : List Text → Text
chunk_lines [] = []
chunk_lines (chunk ∷ rest) = codes "    \"" ++ (chunk ++ (codes "\"\n" ++ chunk_lines rest))

unfoldable pub txt_record : Text → Text → Text
unfolding split_txt
txt_record name value =
    name ++ (codes ". IN TXT (\n" ++ (chunk_lines (split_txt value) ++ codes ")\n"))

-- The records of the keys.
unfoldable pub key_records : Text → List SetupKey → Text
unfolding txt_record
key_records domain [] = []
key_records domain (key ∷ keys) =
    codes "; "
    ++ (key.label
        ++ (codes " public key\n"
            ++ (txt_record (key.selector ++ (codes "._domainkey." ++ domain)) key.dns_txt
                ++ (codes "\n" ++ key_records domain keys))))

abbrev pub mechanism : Text → Text
mechanism ip = (if contains_char b':' ip then codes "ip6" else codes "ip4") ++ codes ":" ++ ip

-- `join(" ")`
abbrev pub joined : List Text → Text
joined [] = []
joined (x ∷ []) = x
joined (x ∷ y ∷ xs) = x ++ codes " " ++ joined (y ∷ xs)

unfoldable pub spf_records : SetupArgs → Text
unfolding txt_record contains_char
spf_records args =
    if is_empty args.spf_ip
    then codes "; no --spf-ip given; fill in your smarthost's address(es), e.g.:\n; "
      ++ (args.domain ++ codes ". IN TXT \"v=spf1 ip4:203.0.113.1 -all\"\n\n")
    else txt_record args.domain
        (codes "v=spf1 " ++ joined (map mechanism args.spf_ip) ++ codes " -all")
      ++ codes "\n"

unfoldable pub dmarc_value : SetupArgs → Text
dmarc_value args =
    codes "v=DMARC1; p="
    ++ args.dmarc_policy
    ++ unwrap_or (Option.map (λ rua. codes "; rua=mailto:" ++ rua) args.dmarc_rua) []

abbrev pub ptr_reminder : Text
ptr_reminder =
    codes "; PTR - reverse DNS for your smarthost's IP address(es). This cannot be published\n"
    ++ codes "; from this zone: a PTR record lives in the IP's own reverse-DNS zone\n"
    ++ codes "; (in-addr.arpa/ip6.arpa), controlled by whoever assigns you that IP address (your\n"
    ++ codes "; hosting provider or ISP), not by this domain's zone. Ask them to point it at your\n"
    ++ codes "; smarthost's HELO/EHLO name, which most receivers expect to match.\n"

unfoldable pub setup_zone : SetupArgs → List SetupKey → Text
unfolding key_records spf_records dmarc_value txt_record
setup_zone args keys =
    codes "; DNS records for "
    ++ (args.domain
        ++ (codes
              ", generated by `carriers setup`.\n; Publish these via $INCLUDE, or paste them into your DNS provider's UI.\n\n"
            ++ (key_records args.domain keys
                ++ (codes "; SPF - authorize the IP address(es) your smarthost sends from\n"
                    ++ (spf_records args
                        ++ (codes "; DMARC\n"
                            ++ (txt_record (codes "_dmarc." ++ args.domain) (dmarc_value args)
                                ++ (codes "\n" ++ ptr_reminder))))))))
