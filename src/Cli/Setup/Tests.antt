-- ===== src/Cli/Setup/Tests.antt =====
-- The theorems on `setup` at two disks.
use carriers.Base.{
  ℕ, Text, true, false, some, List, [], ◌∷◌, codes, inl, ◌==◌, text_eq, text_beq, Failure, fails,
  inr, ◌⊎◌, Bytes, if◌then◌else◌, ◌≡◌, refl,
}
use carriers.Cli.{Screen}
use carriers.Files.{Files}
use carriers.Cli.Setup.{System, setup, known_policy}
use carriers.Cli.Setup
use carriers.Cli.Setup.Refusal.{setup-refuses}
use carriers.Cli.Zone.{SetupArgs}
use carriers.Cli.Zone.Records.{}
use carriers.Keys.Tests.{library}
use carriers.MailingList.{ed25519}

abbrev pub args : SetupArgs
args = record {
  domain = codes "l.example";
  algorithm = ed25519;
  bits = 2048;
  selector_dkim = codes "d";
  selector_arc = codes "a";
  selector_dkim2 = codes "e";
  spf_ip = codes "192.0.2.1" ∷ codes "2001:db8::1" ∷ [];
  dmarc_policy = codes "reject";
  dmarc_rua = some (codes "post@l.example");
  out_dir = codes "/k";
  force = false;
}

-- A disk by the paths on it; randomness is a constant.
abbrev disk : System ℕ (List Text)
disk = record {
  create_dir_all = λ path w. (inl tt, path ∷ w);
  exists = λ path w. path == codes "/k/a.der";
  write = λ path bytes w. (inl tt, path ∷ w);
  entropy = λ w. (7, w);
}

setup-refuses_example :
    (e : Failure) × (setup library disk args (record { world = []; printed = [] }) ≡ (
      fails e,
      (if known_policy args.dmarc_policy
          then record { world = codes "/k" ∷ []; printed = [] }
          else record { world = []; printed = [] }),
    ))
setup-refuses_example =
    setup-refuses library disk args (record { world = []; printed = [] }) refl
      (inr (inl (unfold text_beq in refl)))

-- A disk that keeps what was written, the last write first.
abbrev found : Text → List (Text × Bytes) → Bytes ⊎ Text
found path [] = inr (codes "No such file or directory")
found path ((p, bytes) ∷ w) = if p == path then inl bytes else found path w

abbrev written_files : List (Text × Bytes) → Files
written_files w = record {
  is_dir = λ path. true;
  is_file = λ path. true;
  read_dir = λ path. inl [];
  read = λ path. found path w;
  read_to_string = λ path. inr (codes "stream did not contain valid UTF-8");
  exists = λ path. false;
}

abbrev kept_disk : System ℕ (List (Text × Bytes))
kept_disk = record {
  create_dir_all = λ path w. (inl tt, w);
  exists = λ path w. false;
  write = λ path bytes w. (inl tt, (path, bytes) ∷ w);
  entropy = λ w. (7, w);
}

abbrev empty_screen : Screen (List (Text × Bytes))
empty_screen = record { world = []; printed = [] }
