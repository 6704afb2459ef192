-- ===== src/Sign/Layout.antt =====
-- What `sign_and_seal` of `crates/carriers-core/src/sign.rs` puts out, and what `evaluate_dmarc`
-- tells the policy scripts.
use carriers.Base.{
  Text, Bytes, Bool, true, false, not, ◌&&◌, ◌||◌, Option, List, Result, err, [], ◌∷◌, ◌++◌, codes,
  ok, and_then, any, text_beq, arith, ◌≡◌, refl, ◌∙◌, ap, sym,
}
use mathlib.Core.Option.{some}
use carriers.MailingList.{MailingList}
use carriers.Pipeline.{Ingress}
use carriers.Sign.{
  MailAuth, DkimResult, DmarcResult, DmarcOutput, AuthVerdict, dkim1_result_str, is_pass, is_fail,
  is_temp_error, is_perm_error, is_neutral, dmarc_result_str, evaluate_dmarc, sign_and_seal,
  own_signature, should_sign_dkim2, domain_of, ok_or,
}

any-append_comm {ℓ} :
    {A : Type ℓ} (p : A → Bool) (xs ys : List A) → any p (xs ++ ys) ≡ (any p xs || any p ys)
any-append_comm p [] ys = refl
any-append_comm p (x ∷ xs) ys = ground (arith, any-append_comm p xs ys)

any-swap {ℓ} : {A : Type ℓ} (p : A → Bool) (xs ys : List A) → any p (xs ++ ys) ≡ any p (ys ++ xs)
any-swap p xs ys = ground (arith, any-append_comm p xs ys, any-append_comm p ys xs)

-- The order of the signatures on a message does not change the result that stands for them all.
pub dkim1_result_str_swap :
    (xs ys : List DkimResult) → dkim1_result_str (xs ++ ys) ≡ dkim1_result_str (ys ++ xs)
unfolding dkim1_result_str
dkim1_result_str_swap xs ys =
    rw
      (
        any-swap is_pass xs ys,
        any-swap is_fail xs ys,
        any-swap is_temp_error xs ys,
        any-swap is_perm_error xs ys,
        any-swap is_neutral xs ys,
      )
      refl

abbrev pub passes : DmarcResult → Bool
passes DmarcResult.pass = true
passes _ = false

abbrev pub is_none : DmarcResult → Bool
is_none DmarcResult.none = true
is_none _ = false

passes-str : (r : DmarcResult) → text_beq (dmarc_result_str r) (codes "pass") ≡ passes r
unfolding dmarc_result_str text_beq
passes-str DmarcResult.pass = refl
passes-str DmarcResult.fail = refl
passes-str DmarcResult.temp_error = refl
passes-str DmarcResult.perm_error = refl
passes-str DmarcResult.none = refl

none-str : (r : DmarcResult) → text_beq (dmarc_result_str r) (codes "none") ≡ is_none r
unfolding dmarc_result_str text_beq
none-str DmarcResult.pass = refl
none-str DmarcResult.fail = refl
none-str DmarcResult.temp_error = refl
none-str DmarcResult.perm_error = refl
none-str DmarcResult.none = refl

module _ {Key : Type 0} (mail_auth : MailAuth Key) (list : MailingList Key) (hostname : Text)
    (ingress : Ingress) where
  -- The outputs of the checks on a parsed message.
  abbrev pub dkim2_of : mail_auth.Parsed → DmarcResult
  dkim2_of message =
      mail_auth.verify_dkim2 message ingress.mail_from (list.cfg.posting_address ∷ [])

  abbrev pub dmarc_of : mail_auth.Parsed → DmarcOutput
  dmarc_of message =
      mail_auth.verify_dmarc message (mail_auth.verify_dkim message) (domain_of ingress.mail_from)
        (mail_auth.verify_spf ingress.remote_ip ingress.helo hostname ingress.mail_from)
        (dkim2_of message)

  -- For a message that can be parsed there is a verdict. It says that DMARC passes exactly if one of
  -- the aligned results is a pass, and it lets the list extend a DKIM2 chain exactly if its own
  -- signature is not withheld and the message came with a chain, whatever that chain's result.
  pub evaluate_dmarc_lem :
      (raw : Bytes) (message : mail_auth.Parsed) (no_own_dkim : Bool)
      → mail_auth.parse raw ≡ some message
      → (v : AuthVerdict) × ((evaluate_dmarc mail_auth hostname list ingress raw ≡ ok v)
          × ((v.dmarc_pass ≡ (passes (dmarc_of message).dkim || passes (dmarc_of message).spf))
              × (should_sign_dkim2 v no_own_dkim
                  ≡ (not no_own_dkim && not (is_none (dkim2_of message))))))
  unfolding evaluate_dmarc should_sign_dkim2
  evaluate_dmarc_lem raw message no_own_dkim h = rw h (
    _,
    (
      refl,
      (
        ap (λ b. b || text_beq (dmarc_result_str (dmarc_of message).spf) (codes "pass"))
              (passes-str (dmarc_of message).dkim)
            ∙ ap (λ b. passes (dmarc_of message).dkim || b) (passes-str (dmarc_of message).spf),
        ap (λ b. not no_own_dkim && not b) (none-str (dkim2_of message)),
      ),
    ),
  )

  -- The seal that the message gets: over what goes out, with what was observed of what came in.
  abbrev pub seal_of : mail_auth.Parsed → mail_auth.Parsed → Option Bytes
  seal_of inbound outbound =
      mail_auth.seal list.sealer outbound hostname (mail_auth.verify_dkim inbound)
        (mail_auth.from inbound)
        (mail_auth.verify_spf ingress.remote_ip ingress.helo hostname ingress.mail_from) ingress
        (mail_auth.verify_arc inbound)

  and_then-ok :
      {A B : Type 0} (r : Result A) (f : A → Result B) (b : B)
      → and_then r f ≡ ok b
      → (a : A) × ((r ≡ ok a) × (f a ≡ ok b))
  and_then-ok (ok a) f b h = (a, (refl, h))
  and_then-ok (err e) f b h = absurd (cc)

  ok_or-ok :
      {A : Type 0} (reason : Text) (o : Option A) (a : A) → ok_or reason o ≡ ok a → o ≡ some a
  ok_or-ok reason (some x) a h = let e : x ≡ a = cc (h) in ap some e
  ok_or-ok reason Option.none a h = absurd (cc)

  -- What was signed over, or nothing if the list's signature is withheld.
  abbrev pub Signs : Bool → Bytes → Bytes → Type 0
  Signs true augmented signature = signature ≡ []
  Signs false augmented signature = mail_auth.sign list.signer augmented ≡ some signature

  own_signature-Signs :
      (augmented signature : Bytes) (skip : Bool)
      → own_signature mail_auth list augmented skip ≡ ok signature
      → Signs skip augmented signature
  unfolding own_signature
  own_signature-Signs augmented signature true h = let e : [] ≡ signature = cc (h) in sym e
  own_signature-Signs augmented signature false h =
      ok_or-ok (codes "DKIM signing failed") (mail_auth.sign list.signer augmented) signature h

  -- A message that is a seal, a signature or nothing, and the prepared message.
  abbrev pub IsSealed : Bytes → Bytes → Bool → Bytes → Type 0
  IsSealed original augmented skip out =
      (inbound : mail_auth.Parsed) × ((mail_auth.parse original ≡ some inbound)
        × ((outbound : mail_auth.Parsed) × ((mail_auth.parse augmented ≡ some outbound)
              × ((set : Bytes) × ((seal_of inbound outbound ≡ some set)
                    × ((signature : Bytes) × (Signs skip augmented signature
                          × (out ≡ set ++ (signature ++ augmented)))))))))

  -- Whatever message is put out ends in the prepared message, untouched. It begins with an ARC seal,
  -- made over the prepared message with the results of the checks on the message that came in, not
  -- on the prepared one. Between them stands the list's signature over the prepared message, without
  -- the seal, or nothing if the signature is withheld. Nothing goes out without a seal.
  pub sign_and_seal_lem :
      (original augmented out : Bytes) (skip : Bool)
      → sign_and_seal mail_auth list hostname original augmented ingress skip ≡ ok out
      → IsSealed original augmented skip out
  unfolding sign_and_seal
  sign_and_seal_lem original augmented out skip h =
      let (outbound, (p, h1)) = and_then-ok (ok_or _ (mail_auth.parse augmented)) _ out h in
      let (inbound, (q, h2)) = and_then-ok (ok_or _ (mail_auth.parse original)) _ out h1 in
      let (set, (r, h3)) = and_then-ok (ok_or _ (seal_of inbound outbound)) _ out h2 in
      let (signature, (s, h4)) =
        and_then-ok (own_signature mail_auth list augmented skip) _ out h3 in
      let e : set ++ (signature ++ augmented) ≡ out = cc (h4) in
      (
        inbound,
        (
          ok_or-ok _ _ inbound q,
          (
            outbound,
            (
              ok_or-ok _ _ outbound p,
              (
                set,
                (
                  ok_or-ok _ _ set r,
                  (signature, (own_signature-Signs augmented signature skip s, sym e)),
                ),
              ),
            ),
          ),
        ),
      )
