-- ===== src/Testkit/Verdicts.antt =====
-- The verdicts of `crates/carriers-testkit/src/sink.rs`: what they hold, how they are printed, and
-- what the checks of `mail_auth`, a parameter, contribute.
use carriers.Base.{
  ℕ, Text, Bytes, Bool, true, false, ◌||◌, Option, none, some, List, [], ◌∷◌, ◌++◌, codes, any,
  is_empty, reverse, rsplit_once, trim_end_of, is_whitespace, to_ascii_lowercase, lower,
  eq_ignore_ascii_case, starts_with, if◌then◌else◌, ◌==◌, nat_eq, text_eq, text_beq,
}
use carriers.Sign.{DkimResult, DmarcResult, is_pass}

-- The result of SPF is kept as it is printed.
pub record Verdict : Type 0 where
  pub mail_from : Text
  pub rcpt : List Text
  pub from_domain : Text
  pub dkim_pass_domains : List Text
  pub arc_pass : Bool
  pub dkim2_pass : Bool
  pub spf : Text
  pub dmarc_pass : Bool
  pub dmarc_via_dkim : Bool
  pub dmarc_via_spf : Bool

-- `ends_with`
unfoldable pub ends_with : Text → Text → Bool
unfolding starts_with
ends_with suffix s = starts_with (reverse suffix) (reverse s)

unfoldable pub aligned : Text → Text → Bool
unfolding ends_with lower text_beq
aligned a b =
    let x = to_ascii_lowercase a in
    let y = to_ascii_lowercase b in (x == y) || (ends_with (b'.' ∷ y) x || ends_with (b'.' ∷ x) y)

unfoldable pub author_dkim_pass : Verdict → Bool
unfolding aligned
author_dkim_pass v = any (λ d. aligned d v.from_domain) v.dkim_pass_domains

unfoldable pub dkim_pass_for : Text → Verdict → Bool
unfolding eq_ignore_ascii_case
dkim_pass_for domain v = any (λ d. eq_ignore_ascii_case d domain) v.dkim_pass_domains

abbrev pub pass : Bool → Text
pass true = codes "pass"
pass false = codes "fail"

-- `join` of a list of texts.
abbrev pub join_with : Text → List Text → Text
join_with by [] = []
join_with by (x ∷ []) = x
join_with by (x ∷ y ∷ xs) = x ++ (by ++ join_with by (y ∷ xs))

abbrev pub signers_of : Verdict → Text
signers_of v =
    if is_empty v.dkim_pass_domains then codes "none" else join_with (codes "+") v.dkim_pass_domains

unfoldable pub summary : Verdict → Text
summary v =
    codes "dmarc="
    ++ (pass v.dmarc_pass
        ++ (codes " (dkim-align="
            ++ (pass v.dmarc_via_dkim
                ++ (codes ", spf-align="
                    ++ (pass v.dmarc_via_spf
                        ++ (codes ") | dkim-pass=["
                            ++ (signers_of v
                                ++ (codes "] | arc="
                                    ++ (pass v.arc_pass
                                        ++ (codes " | dkim2="
                                            ++ (pass v.dkim2_pass
                                                ++ (codes " | spf="
                                                    ++ (v.spf
                                                        ++ (codes " | from="
                                                            ++ (v.from_domain
                                                            ++ (codes " envelope="
                                                            ++ (v.mail_from
                                                            ++ (codes " rcpt="
                                                            ++ join_with (codes ",")
                                                            v.rcpt))))))))))))))))))

-- What `domain_of` trims besides the closing bracket.
abbrev pub is_quoting : ℕ → Bool
is_quoting c = is_whitespace c || ((c == b'>') || (c == b'"'))

abbrev pub trim_start_by : (ℕ → Bool) → Text → Text
trim_start_by p [] = []
trim_start_by p (c ∷ s) = if p c then trim_start_by p s else c ∷ s

-- `trim_matches` by a test.
abbrev pub trim_by : (ℕ → Bool) → Text → Text
trim_by p s = reverse (trim_start_by p (reverse (trim_start_by p s)))

unfoldable pub domain_of : Text → Text
unfolding rsplit_once trim_end_of is_whitespace lower
domain_of addr = elim (rsplit_once b'@' addr) [
  | none ↦ []
  | some (_, d) ↦ to_ascii_lowercase (trim_by is_quoting (trim_end_of b'>' d))
]

-- A result of a DKIM check, with the domain of its signature if there is one.
pub record DkimOutput : Type 0 where
  pub result : DkimResult
  pub signature : Option Text

-- `mail_auth` against the mock DNS. The DKIM2 envelope is the sender and the recipients.
pub record Authenticator : Type 1 where
  pub Parsed : Type 0
  pub Spf : Type 0
  pub parse : Bytes → Option Parsed
  pub from : Parsed → Text
  pub verify_dkim : Parsed → List DkimOutput
  pub verify_arc : Parsed → DkimResult
  pub verify_dkim2 : Parsed → Text → List Text → DmarcResult
  pub verify_spf : Text → Text → Text → Text → Spf
  pub spf_result : Spf → Text
  pub verify_dmarc : Parsed → List DkimOutput → Text → Spf → DmarcResult × DmarcResult

abbrev pub dmarc_passes : DmarcResult → Bool
dmarc_passes DmarcResult.pass = true
dmarc_passes _ = false

-- The domains of the signatures that passed.
abbrev pub passing_domains : List DkimOutput → List Text
passing_domains [] = []
passing_domains (o ∷ outputs) =
    if is_pass o.result
    then named o.signature (passing_domains outputs)
    else passing_domains outputs
  where
    named : Option Text → List Text → List Text
    named none rest = rest
    named (some d) rest = d ∷ rest

unfoldable pub unparseable_verdict : Text → List Text → Verdict
unparseable_verdict mail_from recipients = record {
  mail_from = mail_from;
  rcpt = recipients;
  from_domain = [];
  dkim_pass_domains = [];
  arc_pass = false;
  dkim2_pass = false;
  spf = codes "None";
  dmarc_pass = false;
  dmarc_via_dkim = false;
  dmarc_via_spf = false;
}
