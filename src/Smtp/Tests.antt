-- ===== src/Smtp/Tests.antt =====
-- The theorems on the listener and on bounces at one list, one client and one message.
use carriers.Base.{eq_ignore_ascii_case, text_beq, trim_start, is_whitespace, lower}
use carriers.Base.{
  ℕ, Text, Bytes, true, false, List, [], ◌∷◌, ◌++◌, map, codes, pure, ok, all, length, is_empty,
  trim, All, ◌==◌, text_eq, if◌then◌else◌, ◌≤◌, ◌≡◌, refl, arith, Option, text_beq, split_once_str,
  contains_char, ltb,
}
use mathlib.Core.Option.{none, some}
use carriers.MailingList.{MailingList, KeyConfig, Signer, smtp, rsa, default_bounce}
use carriers.State.{AppState, list_for_address}
use carriers.Pipeline.{Ingress}
use carriers.Pipeline
use carriers.Smtp.{
  Services, Recipient, post, bounce, Request, mail, rcpt, data_, session_loop, first_session,
  read_data, process, sanitize_smtp_reply_text, classify_recipient, turn,
}
use carriers.Smtp.Data.{stuffed, concat, read_data-stuffed, read_data-truncated}
use carriers.Smtp.Replies.{within_line, IsReply, sanitize_smtp_reply_text_lem, process-IsReply}
use carriers.Smtp.Sessions.{Keeps, turn-IsOrdered, session_loop-fuel}
use carriers.Smtp.Recipients.{classify_recipient-verp}
use carriers.Verp.{verp, decode_verp}
use carriers.Verp.RoundTrip.{decode_verp-verp}
use carriers.Bounce.{classify, hard, unknown}
use carriers.Bounce.Classify.{render, classify_lem, IsAscii}

abbrev key : KeyConfig
key = record { selector = codes "s"; key_file = codes "k"; algorithm = rsa; domain = none }

abbrev a_signer : Signer Unit
a_signer = record { key = tt; domain = codes "l.example"; selector = codes "s"; headers = [] }

abbrev dev_address : Text
dev_address = codes "dev@l.example"

abbrev dev_list : MailingList Unit
dev_list = record {
  name = codes "dev";
  cfg = record {
    posting_address = dev_address;
    display_name = none;
    list_id = none;
    owner = none;
    archive_url = none;
    help_url = none;
    subscribe_url = none;
    unsubscribe_url = none;
    unsubscribe_oneclick = none;
    subject_prefix = none;
    dkim = key;
    arc = key;
    dkim2 = key;
    policy = codes "open";
    members_file = none;
  };
  domain = codes "l.example";
  signer = a_signer;
  sealer = a_signer;
  dkim2_signer = a_signer;
}

abbrev state : AppState ℕ Unit
state = record {
  config = record {
    hostname = codes "mx";
    protocol = smtp;
    smarthost = record {
      host = codes "relay";
      port = 25;
      implicit_tls = false;
      allow_plaintext = true;
    };
    db_path = codes "carriers.db";
    lists_dir = codes "lists";
    sieve_scripts = none;
    archive_dir = none;
    bounce = default_bounce (λ n. n);
  };
  lists = (dev_address, dev_list) ∷ [];
}

-- Commands by their first lines; the world is the list of the messages that were posted.
abbrev parser : Bytes → Option Request
parser line =
    if line == codes "MAIL FROM:<a@x>\r\n"
    then some (mail (codes "a@x"))
    else if line == codes "RCPT TO:<dev@l.example>\r\n"
    then some (rcpt dev_address)
    else if line == codes "DATA\r\n"
    then some data_
    else none

abbrev services : Services ℕ Unit (List Bytes)
services = record {
  parse = parser;
  intake = λ list ingress raw w. (ok (Pipeline.held 1), raw ∷ w);
  finalize = λ list ingress raw. pure (Pipeline.held 1);
  deliver = λ list prepared. pure 0;
  record_bounce = λ list address weight threshold. pure (some false);
}

abbrev a_message : List Bytes
a_message = codes "Subject: x\r\n" ∷ codes "\r\n" ∷ codes ".dot\r\n" ∷ codes ".\r\n" ∷ []

abbrev rcpt_line : Bytes
rcpt_line = codes "RCPT TO:<dev@l.example>\r\n"

session_loop-fuel_example :
    session_loop services state 2 (codes "::1") first_session (codes "DATA\r\n" ∷ []) []
    ≡ session_loop services state 1 (codes "::1") first_session (codes "DATA\r\n" ∷ []) []
session_loop-fuel_example =
    session_loop-fuel services state 2 1 (codes "::1") first_session (codes "DATA\r\n" ∷ []) []
      (λ h. absurd (cc)) (omega arith) (omega arith)

turn-IsOrdered_example :
    Keeps services state 0
      (turn services state (codes "::1") (some (rcpt dev_address)) first_session [] [])
turn-IsOrdered_example =
    turn-IsOrdered services state (codes "::1") (some (rcpt dev_address)) first_session [] []
      (λ h. absurd (cc))

read_data-stuffed_example :
    read_data (map stuffed a_message ++ (codes ".\r\n" ∷ (codes "QUIT\r\n" ∷ [])))
    ≡ (concat a_message, codes "QUIT\r\n" ∷ [])
read_data-stuffed_example = read_data-stuffed a_message (codes "QUIT\r\n" ∷ [])

read_data-truncated_example :
    read_data (map stuffed a_message) ≡ read_data (map stuffed a_message ++ (codes ".\r\n" ∷ []))
read_data-truncated_example = read_data-truncated a_message

an_ingress : Ingress
an_ingress = record { remote_ip = codes "::1"; helo = []; mail_from = codes "a@x" }

abbrev both : List (Recipient Unit)
both = post dev_list ∷ bounce dev_list (codes "b@x") ∷ []

process-IsReply_example :
    (length (process services state both an_ingress (codes "raw") []).0 ≡ 2)
    × All IsReply (process services state both an_ingress (codes "raw") []).0
process-IsReply_example = process-IsReply services state both an_ingress (codes "raw") []

sanitize_smtp_reply_text_lem_example :
    (all within_line (sanitize_smtp_reply_text (codes "no\r\n250 yes")) ≡ true)
    × ((length (sanitize_smtp_reply_text (codes "no\r\n250 yes")) ≤ 200)
        × (is_empty (trim (sanitize_smtp_reply_text (codes "no\r\n250 yes"))) ≡ false))
sanitize_smtp_reply_text_lem_example = sanitize_smtp_reply_text_lem (codes "no\r\n250 yes")

classify_recipient-verp_example :
    classify_recipient state (verp (codes "dev") (codes "l.example") (codes "b=c@x"))
    ≡ some (bounce dev_list (codes "b=c@x"))
unfolding split_once_str contains_char list_for_address text_beq
classify_recipient-verp_example =
    classify_recipient-verp state (codes "dev") (codes "l.example") (codes "b=c") (codes "x")
      dev_list refl refl refl refl refl

decode_verp-verp_example :
    decode_verp (verp (codes "dev") (codes "l.example") (codes "b+bounce=c@x"))
    ≡ some (dev_address, codes "b+bounce=c@x")
unfolding split_once_str contains_char
decode_verp-verp_example =
    decode_verp-verp (codes "dev") (codes "l.example") (codes "b+bounce=c") (codes "x") refl refl
      refl refl

abbrev silent : Text
silent = codes "Status: 2.0.0"

abbrev hard_line : Text
hard_line = codes " status: 5.1.1 (no)"

IsAscii-of : (s : Text) → all (λ c. ltb c 0x80) s ≡ true → IsAscii s
IsAscii-of [] h = tt
IsAscii-of (c ∷ s) h = (ground arith, IsAscii-of s (ground arith))

classify_lem_example :
    (classify (render (silent ∷ hard_line ∷ [])) ≡ hard)
    × (classify (render (silent ∷ [])) ≡ unknown)
unfolding contains_char eq_ignore_ascii_case text_beq trim_start is_whitespace lower
classify_lem_example =
    classify_lem (silent ∷ []) [] hard_line hard
      ((IsAscii-of silent refl, refl), ((IsAscii-of hard_line refl, refl), tt)) (refl, tt) refl
