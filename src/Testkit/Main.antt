-- ===== src/Testkit/Main.antt =====
-- `crates/carriers-testkit/src/main.rs`: the commands `send` and `scenario`.
pub mod Ingress
use carriers.Base.{
  ℕ, zero, suc, ◌+◌, ◌-◌, Text, Bytes, Bool, true, false, Option, none, some, List, [], ◌∷◌, ◌++◌,
  codes, length, show, digits, ltb, rsplit_once, parse_u16, Fallible, yields, fails, bailed, within,
  bail, or_bail, proceed_with, if◌then◌else◌,
}
use carriers.Base.Maybe.{unwrap_or}
use carriers.Cli.{Screen, Command, pure, try_, ◌>>=◌, ◌>>◌, say}
use carriers.Files.{Files}
use carriers.Keys.{KeyLibrary, DkimKey}
use carriers.MailingList.{ed25519}
use carriers.Testkit.Scenario.{Bench, built, bench_act, all_names}
use carriers.Testkit.Sender.{Submission, AuthorSigner, load_eml, sign_as_author, inject}
use carriers.Testkit.Verdicts.{join_with}

pub record SendArgs : Type 0 where
  pub ingress : Text
  pub from : Text
  pub to : Text
  pub mail_from : Option Text
  pub subject : Text
  pub body : Text
  pub eml : Option Text
  pub sign : Bool
  pub author_key : Option Text
  pub author_selector : Text
  pub author_domain : Text

pub record ScenarioArgs : Type 0 where
  pub name : Option Text
  pub all : Bool

-- `port.parse()` with its context; the text of the parse error is left out.
abbrev pub with_port : Text → Option ℕ → Fallible (Text × ℕ)
with_port host none = fails (within (codes "invalid port") (bailed []))
with_port host (some port) = yields (host, port)

unfoldable pub split_hostport : Text → Fallible (Text × ℕ)
unfolding rsplit_once parse_u16
split_hostport s = elim (rsplit_once b':' s) [
  | none ↦ bail (codes "expected host:port, got `" ++ (s ++ codes "`"))
  | some (host, port) ↦ with_port host (parse_u16 port)
]

module _ {W : Type 0} (clock : W → Option ℕ) (library : KeyLibrary) (files : W → Files)
    (signer : AuthorSigner (DkimKey library)) where
  abbrev pub with_files : (Files → Fallible Bytes) → Command (Bench W) Bytes
  with_files f s = (f (files s.world.world), s)

  -- The author's signature, if it is asked for.
  unfoldable pub signed_if : Bool → SendArgs → Bytes → Command (Bench W) Bytes
  unfolding sign_as_author
  signed_if true args base = do
    key_file ← try_ (or_bail (codes "--sign requires --author-key") args.author_key)
    with_files (λ files. sign_as_author library files signer base (record {
      key_file = key_file;
      selector = args.author_selector;
      domain = args.author_domain;
      algorithm = ed25519;
    }))
  signed_if false args base = pure base

  -- The message: the file to replay, else one that is crafted.
  unfoldable pub message_for : Option Text → SendArgs → Command (Bench W) Bytes
  unfolding load_eml built signed_if
  message_for (some eml) args = with_files (λ files. load_eml library files signer eml)
  message_for none args = do
    base ← built clock (record {
      from = args.from;
      to = args.to;
      subject = args.subject;
      body = args.body;
      extra_headers = [];
    })
    signed_if args.sign args base

  unfoldable pub send : Submission W → SendArgs → Command (Bench W) (Unit {0})
  unfolding split_hostport message_for inject digits
  send client args = do
    target ← try_ (split_hostport args.ingress)
    let mail_from = unwrap_or args.mail_from args.from
    raw ← message_for args.eml args
    sent ← bench_act clock (inject client target.0 target.1 mail_from args.to raw)
    _ ← try_ sent
    say (
        codes "submitted "
        ++ (show (length raw)
            ++ (codes " bytes to " ++ (args.ingress ++ (codes " for " ++ args.to)))))

module _ {W : Type 0} (run : Text → Command W Bool) where
  abbrev pub counted : Bool → ℕ → ℕ
  counted true failures = failures
  counted false failures = failures + 1

  -- The loop over the names, with the failures so far.
  unfoldable pub run_each : List Text → ℕ → Command W ℕ
  run_each [] failures = pure failures
  run_each (name ∷ names) failures = do passed ← run name; run_each names (counted passed failures)

  abbrev pub summary_line : ℕ → ℕ → Text
  summary_line run failures =
      codes "\n"
      ++ (show run
          ++ (codes " scenario(s) run, "
              ++ (show (run - failures)
                  ++ (codes " passed, " ++ (show failures ++ codes " failed.")))))

  abbrev pub names_of : ScenarioArgs → Fallible (List Text)
  names_of args = if args.all then yields all_names else named args.name
    where
      named : Option Text → Fallible (List Text)
      named (some name) = yields (name ∷ [])
      named none = bail (
          codes "give a scenario name or --all (known: "
          ++ (join_with (codes ", ") all_names ++ codes ")"))

  -- The exit code of a run that does not fail.
  unfoldable pub run_scenarios : ScenarioArgs → Command W ℕ
  unfolding run_each digits
  run_scenarios args = do
    names ← try_ (names_of args)
    failures ← run_each names 0
    _ ← say (summary_line (length names) failures)
    pure (if ltb 0 failures then 1 else 0)
