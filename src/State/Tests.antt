-- ===== src/State/Tests.antt =====
-- The theorem on the start of the daemon at a directory with one list.
use carriers.Base.{ℕ, Text, true, false, none, [], ◌∷◌, codes, Result, ok, ◌==◌, text_eq, inl}
use carriers.Files.{Files}
use carriers.MailingList.{
  Config, ListConfig, KeyConfig, MailingList, make_signer, signed_headers, lmtp, rsa,
  default_bounce,
}
use carriers.State.{AppState}
use carriers.State.Load.{Toml}
use carriers.Store.{Db, init}

abbrev key : KeyConfig
key = record { selector = codes "s"; key_file = codes "k"; algorithm = rsa; domain = none }

abbrev dev_config : ListConfig
dev_config = record {
  posting_address = codes "Dev@l";
  display_name = none;
  list_id = none;
  owner = none;
  archive_url = none;
  help_url = none;
  subscribe_url = none;
  unsubscribe_url = none;
  unsubscribe_oneclick = none;
  subject_prefix = none;
  dkim = key;
  arc = key;
  dkim2 = key;
  policy = codes "open";
  members_file = none;
}

abbrev pub config : Config ℕ
config = record {
  hostname = codes "mx";
  protocol = lmtp;
  smarthost = record {
    host = codes "relay";
    port = 25;
    implicit_tls = false;
    allow_plaintext = true;
  };
  db_path = codes "/d";
  lists_dir = codes "/l";
  sieve_scripts = none;
  archive_dir = none;
  bounce = default_bounce (λ n. n);
}

abbrev disk : Files
disk = record {
  is_dir = λ path. path == codes "/l";
  is_file = λ path. true;
  read_dir = λ path. inl (inl (codes "dev.toml") ∷ inl (codes "README") ∷ []);
  read = λ path. inl [];
  read_to_string = λ path. inl [];
  exists = λ path. true;
}

abbrev toml : Toml ℕ
toml = record { config = λ text. inl config; list = λ text. inl dev_config }

abbrev load_key : KeyConfig → Result (Unit {0})
load_key cfg = ok tt

abbrev open_store : Text → Result (Db ℕ)
open_store path = ok (init ℕ)

abbrev dev_list : MailingList Unit
dev_list = record {
  name = codes "dev";
  cfg = dev_config;
  domain = codes "l";
  signer = make_signer key (codes "l") signed_headers tt;
  sealer = make_signer key (codes "l") signed_headers tt;
  dkim2_signer = make_signer key (codes "l") [] tt;
}

abbrev state : AppState ℕ Unit
state = record { config = config; lists = (codes "dev@l", dev_list) ∷ [] }
