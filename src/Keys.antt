-- ===== src/Keys.antt =====
-- Signing keys: `crates/carriers-core/src/keygen.rs`, which makes them and their DNS records, and
-- `crates/carriers-core/src/crypto.rs`, which reads them back. The cryptography is a parameter.
pub mod Reload
pub mod Tests
use carriers.Base.{
  ℕ, Text, Bytes, List, ◌++◌, codes, Result, ok, err, Error, and_then, ◌⊎◌, inl, inr,
}
use carriers.Files.{Files}
use carriers.MailingList.{Algorithm, KeyConfig, rsa, ed25519}

-- What is used of `mail_auth`, `rsa` and `base64`; a failed call gives the text of its error.
-- Making a pair reads a source of randomness.
pub record KeyLibrary : Type 1 where
  pub Entropy : Type 0
  pub Pair : Type 0
  pub RsaPublicKey : Type 0
  pub RsaKey : Type 0
  pub Ed25519Key : Type 0
  pub generate_rsa : Entropy → ℕ → Pair ⊎ Text
  pub generate_ed25519 : Entropy → Pair ⊎ Text
  pub public_key : Pair → Bytes
  pub private_key : Pair → Bytes
  pub encoded_public_key : Pair → Text
  pub from_pkcs1_der : Bytes → RsaPublicKey ⊎ Text
  pub to_public_key_der : RsaPublicKey → Bytes ⊎ Text
  pub base64 : Bytes → Text
  pub rsa_from_pkcs8 : Bytes → RsaKey ⊎ Text
  pub rsa_from_pkcs1 : Bytes → RsaKey ⊎ Text
  pub ed25519_from_pkcs8 : Bytes → Ed25519Key ⊎ Text

pub record GeneratedKey : Type 0 where
  pub private_der : Bytes
  pub dns_txt : Text

-- `map_err` into an error on keys.
abbrev pub key_result {ℓ} : {A : Type ℓ} → Text → A ⊎ Text → Result A
key_result what (inl a) = ok a
key_result what (inr e) = err (Error.key (what ++ codes ": " ++ e))

-- `or_else`
abbrev pub or_else {ℓ} : {A : Type ℓ} → A ⊎ Text → A ⊎ Text → A ⊎ Text
or_else (inl a) other = inl a
or_else (inr e) other = other

module _ (library : KeyLibrary) where
  open library use {
    Entropy, Pair, RsaKey, Ed25519Key, generate_rsa, generate_ed25519, public_key, private_key,
    encoded_public_key, from_pkcs1_der, to_public_key_der, base64, rsa_from_pkcs8, rsa_from_pkcs1,
    ed25519_from_pkcs8,
  }

  -- The public key of a pair in the form of the record.
  unfoldable pub spki : Pair → Result Bytes
  spki pair =
      and_then (key_result (codes "RSA public key decode") (from_pkcs1_der (public_key pair)))
        λ key. key_result (codes "RSA public key SPKI encode") (to_public_key_der key)

  unfoldable pub generate : Entropy → Algorithm → ℕ → Result GeneratedKey
  unfolding spki
  generate entropy rsa rsa_bits =
      and_then (key_result (codes "RSA key generation failed") (generate_rsa entropy rsa_bits))
        λ pair. and_then (spki pair) λ der. ok (record {
          private_der = private_key pair;
          dns_txt = codes "v=DKIM1; k=rsa; p=" ++ base64 der;
        })
  generate entropy ed25519 rsa_bits =
      and_then (key_result (codes "Ed25519 key generation failed") (generate_ed25519 entropy))
        λ pair. ok (record {
          private_der = private_key pair;
          dns_txt = codes "v=DKIM1; k=ed25519; p=" ++ encoded_public_key pair;
        })

  pub data DkimKey : Type 0 where
    rsa_key : RsaKey → DkimKey
    ed25519_key : Ed25519Key → DkimKey

  module _ (files : Files) where
    -- An RSA key is read as PKCS#8 first, and as PKCS#1 if it is not that.
    unfoldable pub parse_key : KeyConfig → Algorithm → Bytes → Result DkimKey
    parse_key cfg rsa der =
        and_then
          (key_result (codes "parsing RSA key " ++ cfg.key_file)
            (or_else (rsa_from_pkcs8 der) (rsa_from_pkcs1 der)))
          (λ key. ok (rsa_key key))
    parse_key cfg ed25519 der =
        and_then
          (key_result (codes "parsing Ed25519 key " ++ cfg.key_file) (ed25519_from_pkcs8 der))
          (λ key. ok (ed25519_key key))

    unfoldable pub load_dkim_key : KeyConfig → Result DkimKey
    unfolding parse_key
    load_dkim_key cfg =
        and_then (key_result (codes "reading " ++ cfg.key_file) (files.read cfg.key_file))
          (parse_key cfg cfg.algorithm)
