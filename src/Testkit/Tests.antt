-- ===== src/Testkit/Tests.antt =====
-- The theorems on the test kit at two drafts, one connection and one harness.
use carriers.Base.{
  ℕ, Text, Bytes, true, Option, none, some, List, [], ◌∷◌, map, codes, yields, ◌==◌, text_eq,
  if◌then◌else◌, inl, arith, ◌≡◌, refl,
}
use carriers.Cli.{Screen}
use carriers.MailingList.{ed25519}
use carriers.Sign.{DkimResult, DmarcResult}
use carriers.Smtp.{mail, rcpt, data_}
use carriers.Store.Order.{IsDistinct}
use carriers.Testkit.Harness.{Harness, ingress, author_from, posting_address}
use carriers.Testkit.Main.{split_hostport}
use carriers.Testkit.Main.Ingress.{split_hostport-ingress}
use carriers.Testkit.Scenario.{Bench, nth_verdict, draft, send_and_score_from}
use carriers.Testkit.Scenario.Scored.{send_and_score_from-arrives}
use carriers.Testkit.Sender.{AuthorKey, Draft, Submission, normalize_crlf_bytes, inject}
use carriers.Testkit.Sender.Crlf.{is_crlf, unix, without_cr, with_crlf, normalize_crlf_bytes_lem}
use carriers.Testkit.Sender.Ids.{build_all, build_all-IsDistinct, id_line}
use carriers.Testkit.Sink.{SinkState}
use carriers.Testkit.Verdicts.{Authenticator, Verdict, unparseable_verdict}

normalize_crlf_bytes_lem_example :
    (normalize_crlf_bytes (codes "a\r\r\nb\n") ≡ with_crlf (without_cr (unix (codes "a\r\r\nb\n"))))
    × (is_crlf (normalize_crlf_bytes (codes "a\r\r\nb\n")) ≡ true)
    × (normalize_crlf_bytes (normalize_crlf_bytes (codes "a\r\r\nb\n"))
        ≡ normalize_crlf_bytes (codes "a\r\r\nb\n"))
normalize_crlf_bytes_lem_example = normalize_crlf_bytes_lem (codes "a\r\r\nb\n")

abbrev two_drafts : List (Draft × Option ℕ)
two_drafts = (draft (codes "x"), some 7) ∷ (draft (codes "x"), some 7) ∷ []

build_all-IsDistinct_example : IsDistinct (map id_line (build_all two_drafts 0))
build_all-IsDistinct_example = build_all-IsDistinct two_drafts 0 refl (omega arith)

-- Every signature is the author's, and passes.
abbrev checks : Authenticator
checks = record {
  Parsed = Bytes;
  Spf = Unit;
  parse = λ raw. some raw;
  from = λ message. author_from;
  verify_dkim =
      λ message. record { result = DkimResult.pass; signature = some (codes "example.com") } ∷ [];
  verify_arc = λ message. DkimResult.pass;
  verify_dkim2 = λ message from to. DmarcResult.none;
  verify_spf = λ ip client host from. tt;
  spf_result = λ spf. codes "Fail";
  verify_dmarc = λ message dkim domain spf. (DmarcResult.pass, DmarcResult.fail);
}

abbrev sink : SinkState (List (Text × Bytes))
sink = record {
  authenticator = checks;
  parse = λ line.
      if line == codes "M\r\n"
      then some (mail (codes "a@x"))
      else if line == codes "R\r\n"
      then some (rcpt (codes "b@y"))
      else if line == codes "D\r\n"
      then some data_
      else none;
  hostname = codes "mx";
  capture_dir = codes "/c";
  print = true;
  write = λ path raw disk. (path, raw) ∷ disk;
}

abbrev sent_lines : List Bytes
sent_lines = codes "M\r\n" ∷ codes "R\r\n" ∷ codes "D\r\n" ∷ codes "hello\r\n" ∷ codes ".\r\n" ∷ []

abbrev author : AuthorKey
author = record {
  key_file = codes "k";
  selector = codes "auth";
  domain = codes "example.com";
  algorithm = ed25519;
}

-- The world is the log of the sink: one verdict comes while the caller sleeps.
abbrev a_verdict : Verdict
unfolding unparseable_verdict
a_verdict = unparseable_verdict author_from (posting_address ∷ [])

abbrev client : Submission (List Verdict)
client = record {
  accepts_host = λ host port. inl tt;
  connect_plain = λ host port w. (inl tt, w);
  send = λ from to raw w. (inl tt, w);
  quit = λ w. w;
}

abbrev harness : Harness (List Verdict)
harness = record {
  ingress_host = codes "127.0.0.1";
  ingress_port = 2525;
  author = author;
  author_dkim2 = author;
  verdicts = λ w. w;
  client = client;
  sleep = λ w. a_verdict ∷ [];
}

split_hostport-ingress_example : split_hostport (ingress harness) ≡ yields (codes "127.0.0.1", 2525)
split_hostport-ingress_example = split_hostport-ingress harness (omega arith)

abbrev screen : Screen (Bench (List Verdict))
screen = record { world = record { seq = 0; world = [] }; printed = [] }

send_and_score_from-arrives_example :
    (let out = send_and_score_from (λ w. none) harness author_from posting_address [] screen in
      (v : Verdict) × ((out.0 ≡ yields v) × (nth_verdict 0 out.1.world.world ≡ some v)))
unfolding inject
send_and_score_from-arrives_example =
    send_and_score_from-arrives (λ w. none) harness author_from posting_address [] screen [] 1
      a_verdict refl (omega arith) refl
