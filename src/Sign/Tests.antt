-- ===== src/Sign/Tests.antt =====
-- The theorems on signing and on delivery, with functions in place of `mail_auth` and of the client.
use carriers.Base.{
  Text, Bytes, true, false, not, ◌&&◌, ◌||◌, Option, List, [], ◌∷◌, codes, ok, err, auth, Result,
  length, ◌≤◌, ◌≡◌, refl,
}
use mathlib.Core.Option.{none, some}
use carriers.MailingList.{MailingList, Signer, KeyConfig, Smarthost, rsa}
use carriers.Pipeline.{Ingress, Prepared}
use carriers.Sign.{
  MailAuth, DkimResult, DmarcResult, DmarcPolicy, AuthVerdict, evaluate_dmarc, sign_and_seal,
  should_sign_dkim2,
}
use carriers.Sign.Layout.{
  passes, is_none, dkim2_of, dmarc_of, evaluate_dmarc_lem, IsSealed, sign_and_seal_lem,
}
use carriers.Deliver.{SmtpClient, deliver}
use carriers.Deliver.Attempts.{attempts, finished, deliver-attempts}

abbrev no_key : KeyConfig
no_key = record { selector = []; key_file = []; algorithm = rsa; domain = none }

abbrev pub unit_signer : Signer Unit
unit_signer = record { key = tt; domain = []; selector = []; headers = [] }

abbrev pub signing_list : MailingList Unit
signing_list = record {
  name = codes "dev";
  cfg = record {
    posting_address = codes "dev@l.example";
    display_name = none;
    list_id = none;
    owner = none;
    archive_url = none;
    help_url = none;
    subscribe_url = none;
    unsubscribe_url = none;
    unsubscribe_oneclick = none;
    subject_prefix = none;
    dkim = no_key;
    arc = no_key;
    dkim2 = no_key;
    policy = codes "open";
    members_file = none;
  };
  domain = codes "l.example";
  signer = unit_signer;
  sealer = unit_signer;
  dkim2_signer = unit_signer;
}

-- A message that is not empty can be parsed; SPF fails, DKIM passes, and there is a DKIM2 chain that
-- fails.
abbrev pub checks : MailAuth Unit
checks = record {
  Parsed = Bytes;
  Spf = Unit;
  Arc = Unit;
  parse = λ raw. if_filled raw;
  from = λ message. codes "a@x";
  verify_dkim = λ message. DkimResult.pass ∷ [];
  verify_spf = λ ip helo hostname from. tt;
  verify_dkim2 = λ message from rcpt. DmarcResult.fail;
  verify_dmarc = λ message dkim domain spf dkim2. record {
    policy = DmarcPolicy.reject;
    dkim = DmarcResult.pass;
    spf = DmarcResult.fail;
  };
  verify_arc = λ message. tt;
  seal = λ signer message hostname dkim from spf ingress arc. some (codes "ARC-Seal: x\r\n");
  sign = λ signer message. some (codes "DKIM-Signature: x\r\n");
  sign_revised = λ signer original message from rcpt. none;
}
  where
    if_filled : Bytes → Option Bytes
    if_filled [] = none
    if_filled (b ∷ raw) = some (b ∷ raw)

abbrev pub from_ann : Ingress
from_ann = record { remote_ip = codes "::1"; helo = codes "h"; mail_from = codes "a@x" }

evaluate_dmarc_lem_example :
    (v : AuthVerdict) × ((evaluate_dmarc checks (codes "mx") signing_list from_ann (codes "raw")
        ≡ ok v)
      × ((v.dmarc_pass ≡ (
            passes (dmarc_of checks signing_list (codes "mx") from_ann (codes "raw")).dkim
            || passes (dmarc_of checks signing_list (codes "mx") from_ann (codes "raw")).spf))
          × (should_sign_dkim2 v false ≡ (
              not false
              && not
                  (is_none (dkim2_of checks signing_list (codes "mx") from_ann (codes "raw")))))))
evaluate_dmarc_lem_example =
    evaluate_dmarc_lem checks signing_list (codes "mx") from_ann (codes "raw") (codes "raw") false
      refl

sign_and_seal_lem_example :
    IsSealed checks signing_list
      (codes "mx")
      from_ann
      (codes "old")
      (codes "new")
      false
      (codes "ARC-Seal: x\r\nDKIM-Signature: x\r\nnew")
unfolding sign_and_seal
sign_and_seal_lem_example =
    sign_and_seal_lem checks signing_list (codes "mx") from_ann (codes "old") (codes "new")
      (codes "ARC-Seal: x\r\nDKIM-Signature: x\r\nnew") false refl

-- The world is the list of the recipients that were sent to; the second is refused.
abbrev relay : SmtpClient (List Text)
relay = record {
  connect = λ smarthost w. (ok tt, w);
  connect_plain = λ smarthost w. (ok tt, w);
  send = λ from to message w. send_to to w;
  quit = λ w. w;
}
  where
    send_to : Text → List Text → Result (Unit {0}) × List Text
    send_to to [] = (ok tt, to ∷ [])
    send_to to (t ∷ w) = (err (auth []), to ∷ t ∷ w)

abbrev local_relay : Smarthost
local_relay = record {
  host = codes "relay";
  port = 25;
  implicit_tls = false;
  allow_plaintext = true;
}

abbrev to_two : Prepared
to_two = record {
  message = codes "m";
  recipients = codes "a@x" ∷ codes "b@x" ∷ [];
  return_path_local = codes "dev";
  list_domain = codes "l.example";
  dkim2_original = none;
}

deliver-attempts_example :
    (deliver checks relay signing_list local_relay to_two []
      ≡ finished checks relay signing_list
          (attempts checks relay signing_list to_two to_two.recipients []))
    × ((attempts checks relay signing_list to_two to_two.recipients []).0
        ≤ length to_two.recipients)
deliver-attempts_example =
    deliver-attempts checks relay signing_list local_relay to_two [] [] refl refl refl
