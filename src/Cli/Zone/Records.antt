-- ===== src/Cli/Zone/Records.antt =====
-- What a zone file of `setup_zone` in `crates/carriers/src/main.rs` holds.
use carriers.Base.{
  ℕ, Text, Bool, true, List, [], ◌∷◌, ◌++◌, map, codes, ltb, All, all, not, ◌&&◌, is_empty,
  if◌then◌else◌, ◌==◌, nat_eq, ◌≢◌, arith, ◌≡◌,
}
use carriers.Cli.Zone.{SetupArgs, SetupKey, joined, mechanism}
use carriers.Cli.Zone.Quoted.{IsPlain, IsQuotable}

abbrev pub dotted : Text → Text
dotted n = n ++ codes "."

-- A name that a line may begin with.
abbrev pub IsLabel : Text → Type 0
IsLabel [] = ⊥
IsLabel (c ∷ s) = IsPlain c × All IsPlain s

abbrev pub key_name : Text → Text → Text
key_name domain selector = dotted (selector ++ (codes "._domainkey." ++ domain))

-- The records that the options ask for: one of each key, one of SPF if addresses are given, and
-- one of DMARC.
abbrev pub key_entries : Text → List SetupKey → List (Text × Text)
key_entries domain [] = []
key_entries domain (key ∷ keys) =
    (key_name domain key.selector, key.dns_txt) ∷ key_entries domain keys

abbrev pub spf_value : SetupArgs → Text
spf_value args = codes "v=spf1 " ++ joined (map mechanism args.spf_ip) ++ codes " -all"

abbrev pub spf_entries : SetupArgs → List (Text × Text)
spf_entries args = if is_empty args.spf_ip then [] else (dotted args.domain, spf_value args) ∷ []

-- Keys with a name, a value that can be quoted and a label of one line.
abbrev pub IsKey : SetupKey → Type 0
IsKey key = All (λ c. c ≢ b'\n') key.label × (IsLabel key.selector × All IsQuotable key.dns_txt)

pub plain-line : (s : Text) → All IsPlain s → All (λ c. c ≢ b'\n') s
plain-line [] u = tt
plain-line (c ∷ s) ((h, _), u) = (h, plain-line s u)

-- Plain characters that are told by a test.
abbrev pub plain : ℕ → Bool
plain c = not (c == b'\n') && (not (c == b' ') && not (c == b';'))

pub all-plain : (s : Text) → all plain s ≡ true → All IsPlain s
all-plain [] h = tt
all-plain (c ∷ s) h = ((ground arith, (ground arith, ground arith)), all-plain s (ground arith))

pub IsLabel-check : (s : Text) → (not (is_empty s) && all plain s) ≡ true → IsLabel s
IsLabel-check [] h = absurd (cc)
IsLabel-check (c ∷ s) h = all-plain (c ∷ s) h

abbrev pub quotable : ℕ → Bool
quotable c = ltb c 0x80 && (not (c == b'"') && not (c == b'\\'))

pub quotable-check : (s : Text) → all quotable s ≡ true → All IsQuotable s
quotable-check [] h = tt
quotable-check (c ∷ s) h =
    ((ground arith, (ground arith, ground arith)), quotable-check s (ground arith))

abbrev spf_example : Text
spf_example = codes ". IN TXT \"v=spf1 ip4:203.0.113.1 -all\"\n\n"

abbrev after_domain : Text
after_domain =
    codes
      ", generated by `carriers setup`.\n; Publish these via $INCLUDE, or paste them into your DNS provider's UI.\n\n"
