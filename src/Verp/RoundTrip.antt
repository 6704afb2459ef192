-- ===== src/Verp/RoundTrip.antt =====
-- `decode_verp` undoes `verp`.
use mathlib.Core.List.{append_assoc}
use carriers.Base.{
  ℕ, Text, false, none, some, [], ◌∷◌, ◌++◌, codes, nat_eq, contains_char, replace_first,
  rsplit_once, split_once_str, strip_prefix, arith, ◌≡◌, refl,
}
use carriers.Verp.{verp, decode_verp, bounce_mark}

replace_first-append :
    (c e : ℕ) (u d : Text)
    → contains_char c u ≡ false
    → replace_first c e (u ++ (c ∷ d)) ≡ u ++ (e ∷ d)
unfolding replace_first contains_char
replace_first-append c e [] d h = ground arith
replace_first-append c e (x ∷ u) d h = ground (arith, replace_first-append c e u d)

rsplit_once-absent : (c : ℕ) (s : Text) → contains_char c s ≡ false → rsplit_once c s ≡ none
unfolding rsplit_once contains_char
rsplit_once-absent c [] h = refl
rsplit_once-absent c (x ∷ s) h = ground (arith, rsplit_once-absent c s)

pub rsplit_once-append :
    (c : ℕ) (a b : Text) → contains_char c b ≡ false → rsplit_once c (a ++ (c ∷ b)) ≡ some (a, b)
unfolding rsplit_once
rsplit_once-append c [] b h = ground (arith, rsplit_once-absent c b h)
rsplit_once-append c (x ∷ a) b h = ground (arith, rsplit_once-append c a b h)

strip_prefix-append : (p s : Text) → strip_prefix p (p ++ s) ≡ some s
unfolding strip_prefix
strip_prefix-append [] s = refl
strip_prefix-append (c ∷ p) s = ground (arith, strip_prefix-append p s)

-- A pattern without `c` is not found across a `c`.
strip_prefix-across :
    (c : ℕ) (p s r : Text)
    → contains_char c p ≡ false
    → strip_prefix p s ≡ none
    → strip_prefix p (s ++ (c ∷ r)) ≡ none
unfolding strip_prefix contains_char
strip_prefix-across c [] s r h k = cc
strip_prefix-across c (q ∷ p) [] r h k = ground arith
strip_prefix-across c (q ∷ p) (x ∷ s) r h k = ground (arith, strip_prefix-across c p s r)

-- The first occurrence of a pattern that begins with `c` and has no other `c` is the one that
-- follows a text without the pattern.
split_once_str-append :
    (c : ℕ) (p s r : Text)
    → contains_char c p ≡ false
    → split_once_str (c ∷ p) s ≡ none
    → split_once_str (c ∷ p) (s ++ ((c ∷ p) ++ r)) ≡ some (s, r)
unfolding split_once_str
split_once_str-append c p [] r h k = ground (arith, strip_prefix-append p r)
split_once_str-append c p (x ∷ s) r h k =
    ground (arith, split_once_str-append c p s r h, strip_prefix-across c p s (p ++ r) h)

verp-local :
    (l dom user host : Text)
    → contains_char b'@' user ≡ false
    → verp l dom (user ++ (b'@' ∷ host))
      ≡ (l ++ (bounce_mark ++ (user ++ (b'=' ∷ host)))) ++ (b'@' ∷ dom)
unfolding verp
verp-local l dom user host h = rw (replace_first-append b'@' b'=' user host h) (simp append_assoc)

-- A bounce address is decoded to the posting address of the list and to the recipient. Conditions:
-- the list's local part does not hold the mark `+bounce=`, its domain holds no `@`, and the
-- recipient is a local part without `@`, an `@` and a domain without `=`; the recipient's local
-- part may hold `=` and the mark.
pub decode_verp-verp :
    (list_local list_domain user host : Text)
    → split_once_str bounce_mark list_local ≡ none
    → contains_char b'@' list_domain ≡ false
    → contains_char b'@' user ≡ false
    → contains_char b'=' host ≡ false
    → decode_verp (verp list_local list_domain (user ++ (b'@' ∷ host)))
      ≡ some (list_local ++ (b'@' ∷ list_domain), user ++ (b'@' ∷ host))
unfolding decode_verp
decode_verp-verp l dom user host hl hd hu hh =
    let encoded = user ++ (b'=' ∷ host) in
    let local = l ++ (bounce_mark ++ encoded) in
    rw (verp-local l dom user host hu, rsplit_once-append b'@' local dom hd)
      (rw (split_once_str-append b'+' (codes "bounce=") l encoded (unfold contains_char in refl) hl)
        (rw (rsplit_once-append b'=' user host hh)))
