-- ===== src/Keys/Reload.antt =====
-- A generated key that is read back: `generate` in `crates/carriers-core/src/keygen.rs` and
-- `load_dkim_key` in `crates/carriers-core/src/crypto.rs`.
use carriers.Base.{
  ℕ, Text, Bytes, ◌++◌, codes, Result, ok, and_then, and_then-ok, ◌⊎◌, inl, inr, ◌≡◌, refl, ap,
}
use carriers.Files.{Files}
use carriers.MailingList.{Algorithm, KeyConfig, rsa, ed25519}
use carriers.Keys.{
  KeyLibrary, GeneratedKey, key_result, spki, generate, DkimKey, rsa_key, ed25519_key,
  load_dkim_key, parse_key,
}

key_result-inl :
    {A : Type 0} (what : Text) (r : A ⊎ Text) (a : A) → key_result what r ≡ ok a → r ≡ inl a
key_result-inl what (inl x) a h = let e : x ≡ a = cc in ap inl e
key_result-inl what (inr x) a h = absurd (cc)

made-generated :
    (der : Bytes) (text : Text) (generated : GeneratedKey)
    → ◌≡◌ {A = Result GeneratedKey}
        (ok (record { private_der = der; dns_txt = text }))
        (ok generated)
    → (der ≡ generated.private_der) × (text ≡ generated.dns_txt)
made-generated der text generated h =
    let made : GeneratedKey = record { private_der = der; dns_txt = text } in
    let e : made ≡ generated = cc in (ap (λ g. g.private_der) e, ap (λ g. g.dns_txt) e)

module _ (library : KeyLibrary) where
  open library use {
    Entropy, Pair, private_key, encoded_public_key, base64, rsa_from_pkcs8, rsa_from_pkcs1,
    ed25519_from_pkcs8, generate_rsa, generate_ed25519,
  }

  -- The documented formats of the private keys: PKCS#1, which is not PKCS#8, for RSA, and PKCS#8 for
  -- Ed25519.
  pub record Formats : Type 0 where
    pub rsa_of : Pair → library.RsaKey
    pub ed25519_of : Pair → library.Ed25519Key
    pub not_pkcs8 : Pair → Text
    pub rsa_is_pkcs1 :
        (entropy : Entropy) (bits : ℕ) (p : Pair)
        → generate_rsa entropy bits ≡ inl p
        → rsa_from_pkcs1 (private_key p) ≡ inl (rsa_of p)
    pub rsa_not_pkcs8 :
        (entropy : Entropy) (bits : ℕ) (p : Pair)
        → generate_rsa entropy bits ≡ inl p
        → rsa_from_pkcs8 (private_key p) ≡ inr (not_pkcs8 p)
    pub ed25519_is_pkcs8 :
        (entropy : Entropy) (p : Pair)
        → generate_ed25519 entropy ≡ inl p
        → ed25519_from_pkcs8 (private_key p) ≡ inl (ed25519_of p)

  module _ (formats : Formats) where
    -- The key of a pair and the record of its public key.
    abbrev pub key_of : Algorithm → Pair → DkimKey library
    key_of rsa p = rsa_key (formats.rsa_of p)
    key_of ed25519 p = ed25519_key (formats.ed25519_of p)

    abbrev pub record_of : Algorithm → Pair → Result Text
    record_of rsa p = and_then (spki library p) λ der. ok (codes "v=DKIM1; k=rsa; p=" ++ base64 der)
    record_of ed25519 p = ok (codes "v=DKIM1; k=ed25519; p=" ++ encoded_public_key p)

    -- If the file that a configuration names holds a key that was generated for its algorithm, then
    -- it loads, as the private key of the very pair whose public key the generated record publishes.
    pub load_dkim_key-generate :
        (files : Files) (cfg : KeyConfig) (entropy : Entropy) (bits : ℕ) (generated : GeneratedKey)
        → generate library entropy cfg.algorithm bits ≡ ok generated
        → files.read cfg.key_file ≡ inl generated.private_der
        → (p : Pair) × ((load_dkim_key library files cfg ≡ ok (key_of cfg.algorithm p))
            × (record_of cfg.algorithm p ≡ ok generated.dns_txt))
    unfolding load_dkim_key generate parse_key
    load_dkim_key-generate files cfg entropy bits generated h k = rw k (go cfg.algorithm h)
      where
        go :
            (a : Algorithm)
            → generate library entropy a bits ≡ ok generated
            → (p : Pair) × ((parse_key library files cfg a generated.private_der ≡ ok (key_of a p))
                × (record_of a p ≡ ok generated.dns_txt))
        go rsa g =
            let made = generate_rsa entropy bits in
            let (p, (q, r)) =
              and_then-ok (key_result (codes "RSA key generation failed") made) _ generated g in
            let (der, (s, e)) = and_then-ok (spki library p) _ generated r in
            let from = key_result-inl (codes "RSA key generation failed") made p q in
            let text = codes "v=DKIM1; k=rsa; p=" ++ base64 der in
            let same = made-generated (private_key p) text generated e in
            (
              p,
              (
                rw
                    (
                      ← same.0,
                      formats.rsa_not_pkcs8 entropy bits p from,
                      formats.rsa_is_pkcs1 entropy bits p from,
                    )
                    refl,
                rw (s) (ap ok same.1),
              ),
            )
        go ed25519 g =
            let made = generate_ed25519 entropy in
            let (p, (q, e)) =
              and_then-ok (key_result (codes "Ed25519 key generation failed") made) _ generated g in
            let from = key_result-inl (codes "Ed25519 key generation failed") made p q in
            let text = codes "v=DKIM1; k=ed25519; p=" ++ encoded_public_key p in
            let same = made-generated (private_key p) text generated e in
            (p, (rw (← same.0, formats.ed25519_is_pkcs8 entropy p from) refl, ap ok same.1))
