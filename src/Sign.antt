-- ===== src/Sign.antt =====
-- `crates/carriers-core/src/sign.rs`: the facts that the verification of an inbound message gives to
-- the policy scripts, and the layout of the message that goes out. What `mail_auth` does is a
-- record of functions: the checks at a given time, and the headers that signing produces.
pub mod Layout
pub mod Tests
use carriers.Base.{
  ℕ, Text, Bytes, Bool, true, false, not, ◌&&◌, ◌||◌, Option, List, [], ◌∷◌, ◌++◌, codes, Result,
  ok, err, Error, auth, and_then, if◌then◌else◌, ◌==◌, text_eq, any, rsplit_once, text_beq,
}
use carriers.MailingList.{MailingList, Signer}
use carriers.Pipeline.{Ingress}

-- The results of `mail_auth`; what a failure holds is not looked at.
pub data DkimResult : Type 0 where
  pass neutral fail perm_error temp_error none : DkimResult

pub data DmarcResult : Type 0 where
  pass fail temp_error perm_error none : DmarcResult

pub data DmarcPolicy : Type 0 where
  none unspecified quarantine reject : DmarcPolicy

-- What `verify_dmarc` gives: the policy of the author's domain and the two aligned results.
pub record DmarcOutput : Type 0 where
  pub policy : DmarcPolicy
  pub dkim : DmarcResult
  pub spf : DmarcResult

pub record AuthVerdict : Type 0 where
  pub dmarc_pass : Bool
  pub dmarc_policy : Text
  pub dkim_result : Text
  pub spf_result : Text
  pub dkim1_result : Text
  pub dkim2_result : Text

unfoldable pub env_pairs : AuthVerdict → List (Text × Text)
env_pairs v =
    (codes "vnd.carriers.dmarc_pass", if v.dmarc_pass then codes "yes" else codes "no")
    ∷ (codes "vnd.carriers.dmarc_policy", v.dmarc_policy)
    ∷ (codes "vnd.carriers.dkim_result", v.dkim_result)
    ∷ (codes "vnd.carriers.spf_result", v.spf_result)
    ∷ (codes "vnd.carriers.dkim1_result", v.dkim1_result)
    ∷ (codes "vnd.carriers.dkim2_result", v.dkim2_result)
    ∷ []

-- `dmarc_result_str` and `dkim2_result_str`, over the same five results.
unfoldable pub dmarc_result_str : DmarcResult → Text
dmarc_result_str DmarcResult.pass = codes "pass"
dmarc_result_str DmarcResult.fail = codes "fail"
dmarc_result_str DmarcResult.temp_error = codes "temperror"
dmarc_result_str DmarcResult.perm_error = codes "permerror"
dmarc_result_str DmarcResult.none = codes "none"

abbrev pub is_pass : DkimResult → Bool
is_pass DkimResult.pass = true
is_pass _ = false

abbrev pub is_fail : DkimResult → Bool
is_fail DkimResult.fail = true
is_fail _ = false

abbrev pub is_temp_error : DkimResult → Bool
is_temp_error DkimResult.temp_error = true
is_temp_error _ = false

abbrev pub is_perm_error : DkimResult → Bool
is_perm_error DkimResult.perm_error = true
is_perm_error _ = false

abbrev pub is_neutral : DkimResult → Bool
is_neutral DkimResult.neutral = true
is_neutral _ = false

unfoldable pub dkim1_result_str : List DkimResult → Text
dkim1_result_str results =
    if any is_pass results
    then codes "pass"
    else if any is_fail results
    then codes "fail"
    else if any is_temp_error results
    then codes "temperror"
    else if any is_perm_error results
    then codes "permerror"
    else if any is_neutral results
    then codes "neutral"
    else codes "none"

unfoldable pub domain_of : Text → Text
unfolding rsplit_once
domain_of address = elim (rsplit_once b'@' address) [
  | Option.none ↦ address
  | Option.some (_, d) ↦ d
]

unfoldable pub policy_str : DmarcPolicy → Text
policy_str DmarcPolicy.none = codes "none"
policy_str DmarcPolicy.unspecified = codes "none"
policy_str DmarcPolicy.quarantine = codes "quarantine"
policy_str DmarcPolicy.reject = codes "reject"

unfoldable pub should_sign_dkim2 : AuthVerdict → Bool → Bool
unfolding text_beq
should_sign_dkim2 verdict no_own_dkim =
    not no_own_dkim && not (verdict.dkim2_result == codes "none")

-- `mail_auth` at one time. `Parsed` is an `AuthenticatedMessage`, `Spf` and `Arc` are the outputs of
-- two of the checks, and headers are printed.
pub record MailAuth (Key : Type 0) : Type 1 where
  pub Parsed : Type 0
  pub Spf : Type 0
  pub Arc : Type 0
  pub parse : Bytes → Option Parsed
  pub from : Parsed → Text
  pub verify_dkim : Parsed → List DkimResult
  pub verify_spf : Text → Text → Text → Text → Spf
  pub verify_dkim2 : Parsed → Text → List Text → DmarcResult
  pub verify_dmarc : Parsed → List DkimResult → Text → Spf → DmarcResult → DmarcOutput
  pub verify_arc : Parsed → Arc
  -- The sealing of a message with the results of the ingress, and the signing of one.
  pub seal :
      Signer Key → Parsed → Text → List DkimResult → Text → Spf → Ingress → Arc → Option Bytes
  pub sign : Signer Key → Bytes → Option Bytes
  pub sign_revised : Signer Key → Bytes → Bytes → Text → List Text → Option Bytes

-- `ok_or_else` and `map_err` to one kind of error; what `mail_auth` adds to its text is left out.
abbrev pub ok_or {ℓ} : {A : Type ℓ} → Text → Option A → Result A
ok_or reason Option.none = err (auth reason)
ok_or reason (Option.some a) = ok a

module _ {Key : Type 0} (mail_auth : MailAuth Key) where
  unfoldable pub evaluate_dmarc : Text → MailingList Key → Ingress → Bytes → Result AuthVerdict
  unfolding dmarc_result_str dkim1_result_str policy_str domain_of text_beq
  evaluate_dmarc hostname list ingress raw =
      and_then (ok_or (codes "failed to parse inbound message") (mail_auth.parse raw)) λ message.
        let dkim = mail_auth.verify_dkim message in
        let spf = mail_auth.verify_spf ingress.remote_ip ingress.helo hostname ingress.mail_from in
        let dkim2 =
          mail_auth.verify_dkim2 message ingress.mail_from (list.cfg.posting_address ∷ []) in
        let dmarc = mail_auth.verify_dmarc message dkim (domain_of ingress.mail_from) spf dkim2 in
        let dkim_result = dmarc_result_str dmarc.dkim in
        let spf_result = dmarc_result_str dmarc.spf in
        ok (record {
          dmarc_pass = (dkim_result == codes "pass") || (spf_result == codes "pass");
          dmarc_policy = policy_str dmarc.policy;
          dkim_result = dkim_result;
          spf_result = spf_result;
          dkim1_result = dkim1_result_str dkim;
          dkim2_result = dmarc_result_str dkim2;
        })

  -- The list's own signature, unless it is withheld.
  unfoldable pub own_signature : MailingList Key → Bytes → Bool → Result Bytes
  own_signature list augmented true = ok []
  own_signature list augmented false =
      ok_or (codes "DKIM signing failed") (mail_auth.sign list.signer augmented)

  unfoldable pub sign_and_seal :
      MailingList Key → Text → Bytes → Bytes → Ingress → Bool → Result Bytes
  unfolding own_signature
  sign_and_seal list hostname original augmented ingress skip_own_dkim =
      and_then (ok_or (codes "failed to parse outbound message") (mail_auth.parse augmented))
        λ message.
          and_then (ok_or (codes "failed to parse inbound message") (mail_auth.parse original))
            λ ingress_message.
              let dkim = mail_auth.verify_dkim ingress_message in
              let arc = mail_auth.verify_arc ingress_message in
              let from = mail_auth.from ingress_message in
              let spf =
                mail_auth.verify_spf ingress.remote_ip ingress.helo hostname ingress.mail_from in
              and_then
                (ok_or (codes "ARC seal failed")
                  (mail_auth.seal list.sealer message hostname dkim from spf ingress arc))
                λ arc_set.
                  and_then (own_signature list augmented skip_own_dkim)
                    λ signature. ok (arc_set ++ (signature ++ augmented))

  unfoldable pub sign_dkim2_for_delivery :
      MailingList Key → Bytes → Bytes → Text → Text → Result Bytes
  sign_dkim2_for_delivery list original message mail_from rcpt_to =
      and_then
        (ok_or (codes "DKIM2 signing failed")
          (mail_auth.sign_revised list.dkim2_signer original message mail_from (rcpt_to ∷ [])))
        λ signed. ok (signed ++ message)
