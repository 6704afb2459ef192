-- ===== src/Testkit/Harness.antt =====
-- `crates/carriers-testkit/src/harness.rs`: the identities, the keys and the files that a run of the
-- daemon is set up with. The tasks it starts, the sockets and the mock DNS server are not modelled.
use carriers.Base.{
  ℕ, Text, Bytes, Bool, true, false, List, ◌++◌, codes, as_bytes, show, digits, Result, ok, err,
  Fallible, yields, fails, bailed, question, with_context, show_error,
}
use carriers.Cli.{Command, pure, try_, ◌>>=◌, act}
use carriers.Cli.Setup.{System, io_call}
use carriers.Files.{join}
use carriers.Keys.{KeyLibrary, GeneratedKey, generate}
use carriers.MailingList.{ed25519}
use carriers.Provider.{MemberProvider}
use carriers.Testkit.Sender.{AuthorKey, Submission}
use carriers.Testkit.Verdicts.{Verdict}

abbrev pub hostname : Text
hostname = codes "mx.lists.example.org"

abbrev pub list_name : Text
list_name = codes "dev"

abbrev pub posting_address : Text
posting_address = codes "dev@lists.example.org"

abbrev pub list_domain : Text
list_domain = codes "lists.example.org"

abbrev pub author_from : Text
author_from = codes "alice@example.com"

abbrev pub author_domain : Text
author_domain = codes "example.com"

abbrev pub author_selector : Text
author_selector = codes "auth"

abbrev pub author_dkim2_selector : Text
author_dkim2_selector = codes "authdkim2"

abbrev pub subscriber : Text
subscriber = codes "bob@subscriber.example"

abbrev pub spoofed_strict_domain : Text
spoofed_strict_domain = codes "spoofed-strict.example"

abbrev pub unconfigured_domain : Text
unconfigured_domain = codes "unconfigured.example"

pub record HarnessOpts : Type 0 where
  pub author_dmarc_policy : Text
  pub print_verdicts : Bool

abbrev pub default_opts : HarnessOpts
default_opts = record { author_dmarc_policy = codes "reject"; print_verdicts = false }

-- A running harness: what its sink has scored in a world, the mail client, and what other tasks do
-- while the caller sleeps.
pub record Harness (W : Type 0) : Type 0 where
  pub ingress_host : Text
  pub ingress_port : ℕ
  pub author : AuthorKey
  pub author_dkim2 : AuthorKey
  pub verdicts : W → List Verdict
  pub client : Submission W
  pub sleep : W → W

unfoldable pub ingress : {W : Type 0} → Harness W → Text
unfolding digits
ingress h = h.ingress_host ++ (codes ":" ++ show h.ingress_port)

-- `dns::base_zone`
abbrev pub base_zone : Text
base_zone =
    codes
      "$TTL 60\n. IN SOA ns.mock.test. hostmaster.mock.test. 1 3600 600 86400 60\n. IN NS ns.mock.test.\n"

-- A line of the zone: a name, and what stands in quotes behind `IN TXT`.
abbrev pub txt_line : Text → Text → Text
txt_line name value = name ++ (codes ". IN TXT \"" ++ (value ++ codes "\"\n"))

abbrev pub a_line : Text → Text
a_line name = name ++ codes ". IN A 127.0.0.1\n"

abbrev pub dkim_name : Text → Text → Text
dkim_name selector domain = selector ++ (codes "._domainkey." ++ domain)

abbrev pub dmarc_record : Text → Text
dmarc_record policy = codes "v=DMARC1; p=" ++ (policy ++ codes "; adkim=r; aspf=r")

unfoldable pub zone_records : Text → Text → Text → Text → Text
zone_records author_dkim_txt list_dkim_txt list_arc_txt author_dmarc_policy =
    txt_line (dkim_name author_selector author_domain) author_dkim_txt
    ++ (txt_line (dkim_name (codes "dkim") list_domain) list_dkim_txt
        ++ (txt_line (dkim_name (codes "arc") list_domain) list_arc_txt
            ++ (txt_line (codes "_dmarc." ++ author_domain) (dmarc_record author_dmarc_policy)
                ++ (txt_line (codes "_dmarc." ++ list_domain) (dmarc_record (codes "quarantine"))
                    ++ (txt_line author_domain (codes "v=spf1 ip4:127.0.0.1 -all")
                        ++ (txt_line list_domain (codes "v=spf1 ip4:127.0.0.1 -all")
                            ++ (a_line author_domain
                                ++ (a_line list_domain
                                    ++ (txt_line (codes "_dmarc." ++ spoofed_strict_domain)
                                          (dmarc_record (codes "reject"))
                                        ++ txt_line spoofed_strict_domain
                                            (codes "v=spf1 -all"))))))))))

-- The zone that `start` assembles: with the records of both DKIM2 keys.
unfoldable pub harness_zone : Text → Text → Text → Text → Text → Text → Text
unfolding zone_records
harness_zone author_txt list_dkim_txt list_arc_txt policy author_dkim2_txt list_dkim2_txt =
    base_zone
    ++ (zone_records author_txt list_dkim_txt list_arc_txt policy
        ++ (txt_line (dkim_name author_dkim2_selector author_domain) author_dkim2_txt
            ++ txt_line (dkim_name (codes "dkim2") list_domain) list_dkim2_txt))

-- `key = "value"` in TOML, as the files are written.
abbrev pub setting : Text → Text → Text
setting key value = key ++ (codes " = \"" ++ (value ++ codes "\"\n"))

abbrev pub config_toml : ℕ → ℕ → Text → Text → Text
config_toml ingress_port sink_port db_path lists_dir =
    setting (codes "hostname") hostname
    ++ (setting (codes "listen") (codes "127.0.0.1:" ++ show ingress_port)
        ++ (setting (codes "protocol") (codes "smtp")
            ++ (setting (codes "db_path") db_path
                ++ (setting (codes "lists_dir") lists_dir
                    ++ (codes "\n[smarthost]\n"
                        ++ (setting (codes "host") (codes "127.0.0.1")
                            ++ (codes "port = "
                                ++ (show sink_port
                                    ++ codes
                                        "\nimplicit_tls = false\nallow_plaintext = true\n"))))))))

abbrev pub key_section : Text → Text → Text
key_section section key_file =
    codes "\n["
    ++ (section
        ++ (codes "]\n"
            ++ (setting (codes "selector") section
                ++ (setting (codes "key_file") key_file
                    ++ (setting (codes "algorithm") (codes "ed25519")
                        ++ setting (codes "domain") list_domain)))))

abbrev pub list_toml : Text → Text → Text → Text
list_toml dkim_key arc_key dkim2_key =
    setting (codes "posting_address") posting_address
    ++ (setting (codes "display_name") (codes "Dev List")
        ++ (setting (codes "policy") (codes "open")
            ++ (key_section (codes "dkim") dkim_key
                ++ (key_section (codes "arc") arc_key ++ key_section (codes "dkim2") dkim2_key))))

abbrev pub key_made : Text → Result GeneratedKey → Fallible GeneratedKey
key_made name (ok key) = yields key
key_made name (err e) =
    fails (bailed (codes "generating key " ++ (name ++ (codes ": " ++ show_error e))))

module _ (library : KeyLibrary) {W : Type 0} (system : System library.Entropy W) where
  abbrev pub write_file : Text → Text → Bytes → Command W (Unit {0})
  write_file context path bytes s =
      let (r, w) = io_call (system.write path bytes s.world) in
      (with_context context (question r), record s { world = w })

  unfoldable pub make_key : Text → Text → Command W (Text × Text)
  unfolding generate
  make_key dir name = do
    entropy ← act system.entropy
    key ← try_ (key_made name (generate library entropy ed25519 0))
    let path = join dir name
    _ ← write_file (codes "writing key " ++ path) path key.private_der
    pure (path, key.dns_txt)

  unfoldable pub write_config : Text → ℕ → ℕ → Text → Text → Command W (Unit {0})
  unfolding as_bytes digits
  write_config root ingress_port sink_port db_path lists_dir =
      write_file (codes "writing carriers.toml") (join root (codes "carriers.toml"))
        (as_bytes (config_toml ingress_port sink_port db_path lists_dir))

  unfoldable pub write_list : Text → Text → Text → Text → Command W (Unit {0})
  unfolding as_bytes
  write_list lists_dir dkim_key arc_key dkim2_key =
      write_file (codes "writing list toml") (join lists_dir (list_name ++ codes ".toml"))
        (as_bytes (list_toml dkim_key arc_key dkim2_key))

-- `seed_subscriber`, on the tables that were opened.
unfoldable pub seed_subscriber : {F D : Type 0} → MemberProvider F D → Command D (Unit {0})
seed_subscriber provider s =
    let (r, d) = provider.add list_name subscriber true false false s.world in
    (with_context (codes "seeding subscriber") (question r), record s { world = d })
