-- ===== src/Cli/Setup.antt =====
-- `setup` in `crates/carriers/src/main.rs`: it makes three keys and writes them with the zone file.
pub mod Refusal
pub mod Written
pub mod Loaded
pub mod Tests
use carriers.Base.{
  ℕ, zero, suc, ◌-◌, Text, Bytes, Bool, true, false, not, List, [], ◌∷◌, ◌++◌, map, codes, length,
  to_ascii_lowercase, lower, as_bytes, Result, ok, Fallible, yields, fails, bailed, bail, question,
  with_context, any, ◌==◌, text_eq, text_beq, if◌then◌else◌, ◌⊎◌, inl, inr,
}
use carriers.Files.{join, io_result}
use carriers.Keys.{KeyLibrary, GeneratedKey, generate}
use carriers.MailingList.{Algorithm, rsa, ed25519}
use carriers.Cli.{Screen, Command, pure, try_, ◌>>=◌, ◌>>◌, say, act, attempt}
use carriers.Cli.Zone.{SetupArgs, SetupKey, setup_zone}

-- What the command asks of the system: the files it looks at and writes, and randomness.
pub record System (Entropy W : Type 0) : Type 0 where
  pub create_dir_all : Text → W → (Unit {0} ⊎ Text) × W
  pub exists : Text → W → Bool
  pub write : Text → Bytes → W → (Unit {0} ⊎ Text) × W
  pub entropy : W → Entropy × W

-- An input or output operation.
abbrev pub io_call : {W A : Type 0} → (A ⊎ Text) × W → Result A × W
io_call (r, w) = (io_result r, w)

-- The label and the selector of each key, and the files that are written.
abbrev pub selectors : SetupArgs → List (Text × Text)
selectors args =
    (codes "DKIM", args.selector_dkim)
    ∷ (codes "ARC", args.selector_arc)
    ∷ (codes "DKIM2", args.selector_dkim2)
    ∷ []

abbrev pub key_path : SetupArgs → Text → Text
key_path args selector = join args.out_dir (selector ++ codes ".der")

abbrev pub zone_path : SetupArgs → Text
zone_path args = join args.out_dir (args.domain ++ codes ".zone")

abbrev pub outputs : SetupArgs → List Text
outputs args = map (λ k. key_path args k.1) (selectors args) ++ zone_path args ∷ []

unfoldable pub known_policy : Text → Bool
unfolding text_beq
known_policy policy =
    any (λ p. p == policy) (codes "none" ∷ codes "quarantine" ∷ codes "reject" ∷ [])

-- `{:<6}`
abbrev pub spaces : ℕ → Text
spaces zero = []
spaces (suc n) = b' ' ∷ spaces n

abbrev pub pad : ℕ → Text → Text
pad width text = text ++ spaces (width - length text)

abbrev pub algorithm_name : Algorithm → Text
algorithm_name rsa = codes "rsa"
algorithm_name ed25519 = codes "ed25519"

abbrev pub key_line : SetupKey → Text
key_line key = codes "  " ++ pad 6 key.label ++ codes " " ++ key.path

abbrev pub config_lines : Algorithm → SetupKey → Text
config_lines algorithm key =
    codes "["
    ++ to_ascii_lowercase key.label
    ++ codes "]\nselector = \""
    ++ key.selector
    ++ codes "\"\nkey_file = \""
    ++ key.path
    ++ codes "\"\nalgorithm = \""
    ++ algorithm_name algorithm
    ++ codes "\"\n"

module _ (library : KeyLibrary) {W : Type 0} (system : System library.Entropy W) where
  -- The check of the files that are there already.
  unfoldable pub refuse_existing : List Text → Command W (Unit {0})
  refuse_existing [] s = pure tt s
  refuse_existing (path ∷ paths) s =
      let rest = refuse_existing paths s in
      if system.exists path s.world
      then (bail (path ++ codes " already exists (pass --force to overwrite)"), s)
      else rest

  -- `keygen::generate`
  unfoldable pub new_key : SetupArgs → Command W GeneratedKey
  unfolding generate
  new_key args = do
    entropy ← act system.entropy
    try_ (question (generate library entropy args.algorithm args.bits))

  unfoldable pub make_keys : SetupArgs → List (Text × Text) → Command W (List SetupKey)
  unfolding new_key
  make_keys args [] = pure []
  make_keys args ((label, selector) ∷ rest) = do
    let path = key_path args selector
    generated ← new_key args
    attempt (with_context (codes "writing " ++ label ++ codes " private key to " ++ path))
        (λ w. io_call (system.write path generated.private_der w))
    keys ← make_keys args rest
    pure (
        record { label = label; selector = selector; path = path; dns_txt = generated.dns_txt }
        ∷ keys)

  unfoldable pub say_all : List Text → Command W (Unit {0})
  say_all [] = pure tt
  say_all (line ∷ lines) = say line >> say_all lines

  unfoldable pub report : SetupArgs → List SetupKey → Command W (Unit {0})
  unfolding say_all lower
  report args keys = do
    say (codes "Generated keys for " ++ args.domain ++ codes ":")
    say_all (map key_line keys)
    say (codes "DNS zone file written to " ++ zone_path args)
    say []
    say (
        codes "Publish it: append "
        ++ zone_path args
        ++ codes " to your zone (or a $INCLUDE), or paste its records into your DNS")
    say (codes "provider's UI. It also has a reminder about the PTR record your host controls.")
    say []
    say (codes "List config ([dkim]/[arc]/[dkim2]):")
    say_all (map (config_lines args.algorithm) keys)

  -- Once the files may be written.
  unfoldable pub generate_all : SetupArgs → Command W (Unit {0})
  unfolding make_keys report setup_zone as_bytes
  generate_all args = do
    keys ← make_keys args (selectors args)
    attempt (with_context (codes "writing zone file to " ++ zone_path args))
        (λ w. io_call (system.write (zone_path args) (as_bytes (setup_zone args keys)) w))
    report args keys

  -- `create_dir_all`, and then the files that may not be there.
  unfoldable pub prepare : SetupArgs → Command W (Unit {0})
  unfolding refuse_existing
  prepare args = do
    attempt (with_context (codes "creating output directory " ++ args.out_dir))
        (λ w. io_call (system.create_dir_all args.out_dir w))
    (if args.force then pure tt else refuse_existing (outputs args))

  unfoldable pub setup : SetupArgs → Command W (Unit {0})
  unfolding known_policy prepare generate_all
  setup args =
      if known_policy args.dmarc_policy
      then prepare args >> generate_all args
      else try_ (
          bail (
            codes "--dmarc-policy must be one of `none`, `quarantine`, `reject` (got `"
            ++ args.dmarc_policy
            ++ codes "`)"))
