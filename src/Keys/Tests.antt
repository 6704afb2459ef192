-- ===== src/Keys/Tests.antt =====
-- A library of keys that are single numbers.
use carriers.Base.{ℕ, Bytes, [], ◌∷◌, codes, inl, inr, refl}
use carriers.Keys.{KeyLibrary}
use carriers.Keys.Reload.{Formats}

-- A pair is the number of its entropy; a private key in PKCS#1 begins with a one.
abbrev pub library : KeyLibrary
library = record {
  Entropy = ℕ;
  Pair = ℕ;
  RsaPublicKey = Bytes;
  RsaKey = Bytes;
  Ed25519Key = Bytes;
  generate_rsa = λ entropy bits. inl entropy;
  generate_ed25519 = λ entropy. inl entropy;
  public_key = λ p. p ∷ [];
  private_key = λ p. 1 ∷ p ∷ [];
  encoded_public_key = λ p. p ∷ [];
  from_pkcs1_der = λ der. inl der;
  to_public_key_der = λ key. inl (48 ∷ key);
  base64 = λ bytes. bytes;
  rsa_from_pkcs8 = λ der. inr (codes "not PKCS#8");
  rsa_from_pkcs1 = λ der. inl der;
  ed25519_from_pkcs8 = λ der. inl der;
}

abbrev pub formats : Formats library
formats = record {
  rsa_of = λ p. 1 ∷ p ∷ [];
  ed25519_of = λ p. 1 ∷ p ∷ [];
  not_pkcs8 = λ p. codes "not PKCS#8";
  rsa_is_pkcs1 = λ entropy bits p h. refl;
  rsa_not_pkcs8 = λ entropy bits p h. refl;
  ed25519_is_pkcs8 = λ entropy p h. refl;
}
