-- ===== src/Cli/Tests.antt =====
-- The theorems on the command line at small inputs.
use carriers.Base.{
  ℕ, true, false, none, some, List, [], ◌∷◌, codes, pure, ltb, not, inl, text_eq, text_beq, lines,
  arith, ◌+◌, ◌≡◌, refl,
}
use carriers.Bounce.{classify, line_kind}
use carriers.Cli.{Screen}
use carriers.Cli.Members.{seed_subscribers_from_file}
use carriers.Cli.Members.Import.{seed_subscribers_from_file-IsImported, IsImported}
use carriers.Cli.Review.{approve_held}
use carriers.Files.{Files}
use carriers.Provider.{sqlite_member_provider}
use carriers.Cli.Review.Approval.{approve_held-IsSafe, IsSafe}
use carriers.Cli.Setup.{}
use carriers.Cli.Zone.{SetupKey}
use carriers.Cli.Zone.Quoted.{line}
use carriers.Deliver.{SmtpClient}
use carriers.Deliver.Kept.{ClientKeeps}
use carriers.Pipeline.Steps.{World}
use carriers.Policy.Load.Tests.{bare}
use carriers.Policy.Tests.{trees}
use carriers.Sign.Tests.{checks, signing_list}
use carriers.Smtp.Daemon.{Crates, daemon}
use carriers.State.{AppState}
use carriers.State.Tests.{config}
use carriers.Smtp.Bounces.{Happening, report, write, live, handle_bounce-subscribers}
use carriers.Store.{Db, Score, init, HeldRow, subscribers, normalise, add_member}
use carriers.Store.Invariant.{IsValid, init-IsValid, exec, exec-IsValid, add}
use carriers.Store.Order.{contains}

abbrev a_key : SetupKey
a_key = record {
  label = codes "DKIM";
  selector = codes "d";
  path = codes "/k/d.der";
  dns_txt = codes "v=DKIM1; k=ed25519; p=AAAA";
}

instance abbrev whole : Score ℕ
whole = record { zero = 0; add = λ a b. a + b; at_least = λ a b. not (ltb a b) }

abbrev held_row : HeldRow
held_row = record {
  id = 3;
  list = codes "dev";
  mail_from = codes "a@x";
  helo = codes "h";
  remote_ip = codes "::1";
  sender = none;
  subject = none;
  raw = codes "raw";
  received_at = 5;
}

abbrev one_held : World ℕ
one_held = record {
  db = record { members = []; seen_messages = []; moderation_queue = held_row ∷ []; last_id = 3 };
  now = 7;
  archived = [];
}

one_held-IsValid : IsValid one_held.db
one_held-IsValid = record {
  unique_members = tt;
  flags = tt;
  unique_seen = tt;
  ascending = (omega arith, omega arith);
  in_range = omega arith;
}

abbrev idle : SmtpClient (World ℕ)
idle = record {
  connect = λ host. pure tt;
  connect_plain = λ host. pure tt;
  send = λ from to body. pure tt;
  quit = λ w. w;
}

abbrev crates : Crates ℕ Unit
crates = record {
  mail_auth = checks;
  parse_mail = λ raw. some (record { from = none; subject = none });
  parse_command = λ line. none;
  client = idle;
}

abbrev idle_keeps : ClientKeeps (λ (w : World ℕ). w.db) idle
idle_keeps = record {
  connect_keeps = λ host w. refl;
  plain_keeps = λ host w. refl;
  send_keeps = λ from to body w. refl;
  quit_keeps = λ w. refl;
}

abbrev one_list : AppState ℕ Unit
one_list = record { config = config; lists = (codes "dev@l.example", signing_list) ∷ [] }

abbrev screen : Screen (World ℕ)
screen = record { world = one_held; printed = [] }

approve_held-IsSafe_example :
    IsSafe crates idle_keeps trees bare one_list
      (λ ip. some ip)
      3
      one_held.db
      (approve_held (λ ip. some ip) (daemon crates trees bare one_list) one_list 3 screen)
approve_held-IsSafe_example =
    approve_held-IsSafe crates idle_keeps trees bare one_list (λ ip. some ip) 3 screen
      one_held-IsValid

abbrev members_disk : Files
members_disk = record {
  is_dir = λ path. false;
  is_file = λ path. true;
  read_dir = λ path. inl [];
  read = λ path. inl [];
  read_to_string = λ path. inl (codes "# seeds\n\n Ann@x \nbob@x\n");
  exists = λ path. true;
}

abbrev no_members : Screen (Db ℕ)
no_members = record { world = init ℕ; printed = [] }

seed_subscribers_from_file-IsImported_example :
    IsImported
      (codes "dev")
      (codes "dev")
      (codes "ann@X")
      (lines (codes "# seeds\n\n Ann@x \nbob@x\n"))
      0
      (init ℕ)
      (seed_subscribers_from_file sqlite_member_provider members_disk
        (codes "dev")
        (codes "/m")
        no_members)
seed_subscribers_from_file-IsImported_example =
    seed_subscribers_from_file-IsImported members_disk (codes "dev") (codes "/m")
      (codes "# seeds\n\n Ann@x \nbob@x\n") (codes "dev") (codes "ann@X") no_members
      (init-IsValid ℕ) refl

-- Ann subscribes; her mail bounces, she becomes a poster, her mail bounces again.
abbrev subscribed : World ℕ
subscribed = record {
  db = exec (add (codes "dev") (codes "ann@x") true false false) (init ℕ);
  now = 7;
  archived = [];
}

abbrev bounced_twice : List (Happening ℕ)
bounced_twice =
    report 8 (codes "Status: 5.1.1")
    ∷ (write (add (codes "dev") (codes "ann@x") true true false)
        ∷ (report 9 (codes "Status: 5.1.1") ∷ []))

handle_bounce-subscribers_example :
    contains (normalise (codes " Ann@X")) (
      subscribers
        (codes "dev")
        (live crates trees bare one_list signing_list (codes " Ann@X") bounced_twice subscribed).db)
    ≡ false
unfolding exec add_member text_beq normalise classify line_kind
handle_bounce-subscribers_example =
    handle_bounce-subscribers crates trees bare one_list signing_list (codes " Ann@X") bounced_twice
      (0, 0) subscribed
      (exec-IsValid (add (codes "dev") (codes "ann@x") true false false) (init ℕ) (init-IsValid ℕ))
      refl refl refl refl
