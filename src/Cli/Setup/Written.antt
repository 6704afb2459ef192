-- ===== src/Cli/Setup/Written.antt =====
-- What `setup` in `crates/carriers/src/main.rs` leaves on the disk, and what
-- `crates/carriers-core/src/crypto.rs` reads of it.
use carriers.Base.{
  Text, Bytes, false, List, [], ◌∷◌, ◌++◌, map, codes, contains_char, ok, Fallible, yields, fails,
  question, question-yields, with_context, All, ◌⊎◌, inl, inr, arith, ◌≡◌, ◌≢◌, refl, ap, ◌∙◌,
  text_eq, text_beq_iff,
}
use mathlib.Core.Path.{subst}
use carriers.Files.{Files, join}
use carriers.Keys.{KeyLibrary, GeneratedKey, generate}
use carriers.Store.Order.{contains, IsDistinct}
use carriers.Cli.{Screen, Command, proceed, attempt}
use carriers.Cli.Zone.{SetupArgs, SetupKey}
use carriers.Cli.Setup.{System, io_call, key_path, new_key, make_keys}

module _ {W A B : Type 0} where
  -- A command that succeeds, taken apart.
  pub proceed-yields :
      (f : A → Command W B) (out : Fallible A × Screen W) (b : B) (s' : Screen W)
      → proceed f out ≡ (yields b, s')
      → (a : A) × ((out.0 ≡ yields a) × (f a out.1 ≡ (yields b, s')))
  proceed-yields f (yields a, s) b s' h = (a, (refl, h))
  proceed-yields f (fails e, s) b s' h = absurd (cc)

pub io_call-yields :
    {W A : Type 0} (text : Text) (r : (A ⊎ Text) × W) (a : A)
    → with_context text (question (io_call r).0) ≡ yields a
    → r.0 ≡ inl a
io_call-yields text (inl x, w) a h = let e : x ≡ a = cc in ap inl e
io_call-yields text (inr e, w) a h = absurd (cc)

abbrev pub der : Text → Text
der selector = selector ++ codes ".der"

-- The names of the key files, which are all in the output directory.
abbrev pub key_names : List (Text × Text) → List Text
key_names sels = map (λ k. der k.1) sels

abbrev pub AreNames : List Text → Type 0
AreNames names = All (λ n. contains_char b'/' n ≡ false) names

module _ (library : KeyLibrary) {W : Type 0} (system : System library.Entropy W)
    (files : W → Files) where
  -- What is documented of a file system without links: a file that was written is read back, a write
  -- leaves the files with other names in its directory as they are, and so does the random source.
  pub record DiskLaws : Type 0 where
    pub write_reads :
        (path : Text) (bytes : Bytes) (w : W)
        → (system.write path bytes w).0 ≡ inl tt
        → (files (system.write path bytes w).1).read path ≡ inl bytes
    pub write_keeps :
        (dir a b : Text) (bytes : Bytes) (w : W)
        → a ≢ b
        → contains_char b'/' a ≡ false
        → contains_char b'/' b ≡ false
        → (files (system.write (join dir a) bytes w).1).read (join dir b)
          ≡ (files w).read (join dir b)
    pub entropy_keeps :
        (path : Text) (w : W) → (files (system.entropy w).1).read path ≡ (files w).read path

  module _ (args : SetupArgs) where
    -- The file of a key holds a key that was generated with the record of it.
    abbrev pub Holds : W → SetupKey → Type 0
    Holds w key =
        (entropy : library.Entropy) × ((generated : GeneratedKey) × ((generate library entropy
                args.algorithm args.bits
              ≡ ok generated)
            × (((files w).read key.path ≡ inl generated.private_der)
                × (generated.dns_txt ≡ key.dns_txt))))

    -- What `make_keys` promises of its result.
    abbrev pub Made : List (Text × Text) → W → List SetupKey → W → Type 0
    Made sels w keys w' =
        (map (λ (k : SetupKey). (k.label, k.selector)) keys ≡ sels)
        × ((map (λ (k : SetupKey). k.path) keys ≡ map (λ n. join args.out_dir n) (key_names sels))
            × (((name : Text)
                  → contains_char b'/' name ≡ false
                  → contains name (key_names sels) ≡ false
                  → (files w').read (join args.out_dir name)
                    ≡ (files w).read (join args.out_dir name))
                × All (Holds w') keys))

    Made-yields :
        (sels : List (Text × Text)) (w : W) (keys keys' : List SetupKey) (s s' : Screen W)
        → ◌≡◌ {A = Fallible (List SetupKey) × Screen W} (yields keys, s) (yields keys', s')
        → Made sels w keys s.world
        → Made sels w keys' s'.world
    Made-yields sels w keys keys' s s' h made =
        let same : yields keys ≡ yields keys' = ap (λ o. o.0) h in
        let e : keys ≡ keys' = cc in
        let f : s ≡ s' = ap (λ o. o.1) h in
        subst (λ v. Made sels w keys' v.world) f (subst (λ ks. Made sels w ks s.world) e made)

    abbrev entry : Text → Text → GeneratedKey → SetupKey
    entry label selector generated = record {
      label = label;
      selector = selector;
      path = key_path args selector;
      dns_txt = generated.dns_txt;
    }

    -- One key more, whose file was written before those of the others.
    Made-cons :
        DiskLaws
        → (label selector : Text) (sels : List (Text × Text)) (entropy : library.Entropy)
          (generated : GeneratedKey) (keys : List SetupKey) (w w' : W)
        → AreNames (key_names ((label, selector) ∷ sels))
        → contains (der selector) (key_names sels) ≡ false
        → generate library entropy args.algorithm args.bits ≡ ok generated
        → (system.write (key_path args selector) generated.private_der w).0 ≡ inl tt
        → Made sels (system.write (key_path args selector) generated.private_der w).1 keys w'
        → Made ((label, selector) ∷ sels) w (entry label selector generated ∷ keys) w'
    Made-cons laws label selector sels entropy generated keys w w' (name, names) fresh g written
          (labels, (paths, (kept, held))) =
        (
          ap (λ r. (label, selector) ∷ r) labels,
          (
            ap (λ r. key_path args selector ∷ r) paths,
            (
              (λ other plain absent.
                  kept other plain (ground arith)
                  ∙ laws.write_keeps args.out_dir (der selector) other generated.private_der w
                      (λ e. absurd (ground (arith, text_beq_iff (der selector) other))) name plain),
              (
                (
                  entropy,
                  (
                    generated,
                    (
                      g,
                      (
                        kept (der selector) name fresh
                            ∙ laws.write_reads (key_path args selector) generated.private_der w
                                written,
                        refl,
                      ),
                    ),
                  ),
                ),
                held,
              ),
            ),
          ),
        )

    Made-entropy :
        DiskLaws
        → (sels : List (Text × Text)) (w : W) (keys : List SetupKey) (w' : W)
        → Made sels (system.entropy w).1 keys w'
        → Made sels w keys w'
    Made-entropy laws sels w keys w' (labels, (paths, (kept, held))) = (
      labels,
      (
        paths,
        (
          (λ name plain absent.
              kept name plain absent ∙ laws.entropy_keeps (join args.out_dir name) w),
          held,
        ),
      ),
    )

    pub make_keys-Made :
        DiskLaws
        → (sels : List (Text × Text)) (keys : List SetupKey) (s s' : Screen W)
        → AreNames (key_names sels)
        → IsDistinct (key_names sels)
        → make_keys library system args sels s ≡ (yields keys, s')
        → Made sels s.world keys s'.world
    unfolding make_keys new_key
    make_keys-Made laws [] keys s s' names distinct h =
        Made-yields [] s.world [] keys s s' h (refl, (refl, ((λ name plain absent. refl), tt)))
    make_keys-Made laws ((label, selector) ∷ rest) keys s s' (name, names) (fresh, distinct) h =
        let entropy = (system.entropy s.world).0 in
        let w = (system.entropy s.world).1 in
        let s1 : Screen W = record s { world = w } in
        let path = key_path args selector in
        let last : GeneratedKey → List SetupKey → Command W (List SetupKey) =
          λ generated later s. (yields (entry label selector generated ∷ later), s) in
        let then_ : GeneratedKey → Command W (List SetupKey) =
          λ generated s. proceed (last generated) (make_keys library system args rest s) in
        let text = codes "writing " ++ label ++ codes " private key to " ++ path in
        let writing : GeneratedKey → Command W (List SetupKey) = λ generated s.
          proceed (λ _. then_ generated)
            (attempt (with_context text) (λ w. io_call (system.write path generated.private_der w))
              s) in
        let (generated, (g, h1)) =
          proceed-yields writing (question (generate library entropy args.algorithm args.bits), s1)
            keys s' h in
        let out = system.write path generated.private_der w in
        let s2 : Screen W = record s { world = out.1 } in
        let (u, (written, h2)) =
          proceed-yields (λ _. then_ generated) (with_context text (question (io_call out).0), s2)
            keys s' h1 in
        let (later, (made, h3)) =
          proceed-yields (last generated) (make_keys library system args rest s2) keys s' h2 in
        let s3 = (make_keys library system args rest s2).1 in
        let g' = question-yields (generate library entropy args.algorithm args.bits) generated g in
        let w' = io_call-yields text out u written in
        let rest_made =
          make_keys-Made laws rest later s2 s3 names distinct (ap (λ r. (r, s3)) made) in
        Made-yields ((label, selector) ∷ rest) s.world (entry label selector generated ∷ later) keys
          s3 s' h3
          (Made-entropy laws ((label, selector) ∷ rest) s.world
            (entry label selector generated ∷ later) s3.world
            (Made-cons laws label selector rest entropy generated later w s3.world (name, names)
              fresh g' w' rest_made))
