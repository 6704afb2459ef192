-- ===== src/Cli/Setup/Loaded.antt =====
-- The keys of a successful `setup` in `crates/carriers/src/main.rs`, as the daemon loads them with
-- `load_dkim_key` of `crates/carriers-core/src/crypto.rs`.
use carriers.Base.{
  ℕ, Text, Option, List, [], ◌∷◌, ◌++◌, map, codes, ok, to_ascii_lowercase, All, as_bytes, inl, ◌≡◌,
}
use carriers.Files.{Files}
use carriers.Keys.{KeyLibrary, load_dkim_key}
use carriers.Keys.Reload.{Formats, key_of, record_of}
use carriers.MailingList.{KeyConfig, Algorithm, rsa, ed25519}
use carriers.Cli.{Screen}
use carriers.Cli.Zone.{SetupArgs, SetupKey, setup_zone}
use carriers.Cli.Setup.{System, selectors, zone_path}

abbrev last : Text → ℕ
last [] = 0
last (c ∷ []) = c
last (c ∷ d ∷ s) = last (d ∷ s)

-- The name of an algorithm in a configuration.
abbrev pub name_of : Algorithm → Text
name_of rsa = codes "rsa"
name_of ed25519 = codes "ed25519"

module _ (library : KeyLibrary) {W : Type 0} (system : System library.Entropy W) (files : W → Files)
    (args : SetupArgs) where
  -- The section of the list's configuration that is printed for a key.
  abbrev pub section : SetupKey → Text
  section key =
      codes "["
      ++ (to_ascii_lowercase key.label
          ++ (codes "]\nselector = \""
              ++ (key.selector
                  ++ (codes "\"\nkey_file = \""
                      ++ (key.path
                          ++ (codes "\"\nalgorithm = \""
                              ++ (name_of args.algorithm ++ codes "\"\n")))))))

  -- The configuration of a key, as it is printed for the list.
  abbrev pub config_of : Option Text → SetupKey → KeyConfig
  config_of domain key = record {
    selector = key.selector;
    key_file = key.path;
    algorithm = args.algorithm;
    domain = domain;
  }

  module _ (formats : Formats library) where
    -- The key loads as the private key of the pair whose public key its record publishes.
    abbrev pub Loads : Option Text → W → SetupKey → Type 0
    Loads domain w key =
        (p : library.Pair) × ((load_dkim_key library (files w) (config_of domain key)
            ≡ ok (key_of library formats args.algorithm p))
          × (record_of library formats args.algorithm p ≡ ok key.dns_txt))

    -- What is on the disk, the zone file of the keys and the file of each, and what was printed last,
    -- a section for each.
    abbrev pub IsSetUp : Option Text → Screen W → Type 0
    IsSetUp domain s =
        (keys : List SetupKey) × ((map (λ (k : SetupKey). (k.label, k.selector)) keys
            ≡ selectors args)
          × (((files s.world).read (zone_path args) ≡ inl (as_bytes (setup_zone args keys)))
              × (All (Loads domain s.world) keys
                  × ((before : List Text) × (s.printed ≡ before ++ map section keys)))))
