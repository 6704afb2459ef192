-- ===== src/Store/Order.antt =====
-- `ORDER BY`: rows sorted by insertion on a key. SQLite compares texts by code point, and a prefix
-- comes first.
use carriers.Base.{
  Text, Bool, true, false, ◌&&◌, ◌||◌, List, [], ◌∷◌, ltb, ◌==◌, nat_eq, text_eq, text_beq_iff,
  if◌then◌else◌, any, All, arith, ◌≡◌, ◌≢◌, refl, ap, ◌∙◌, Bool-cases, inl, inr,
}

unfoldable pub text_leb : Text → Text → Bool
text_leb [] t = true
text_leb (x ∷ s) [] = false
text_leb (x ∷ s) (y ∷ t) = ltb x y || ((x == y) && text_leb s t)

module _ {A K : Type 0} (le : K → K → Bool) (key : A → K) where
  unfoldable pub insert : A → List A → List A
  insert a [] = a ∷ []
  insert a (x ∷ xs) = if le (key a) (key x) then a ∷ x ∷ xs else x ∷ insert a xs

  unfoldable pub sort_by : List A → List A
  unfolding insert
  sort_by [] = []
  sort_by (x ∷ xs) = insert x (sort_by xs)

-- The order is total, antisymmetric and transitive.
pub text_leb_total : (s t : Text) → text_leb s t ≡ false → text_leb t s ≡ true
unfolding text_leb
text_leb_total [] t h = cc
text_leb_total (x ∷ s) [] h = refl
text_leb_total (x ∷ s) (y ∷ t) h = ground (arith, text_leb_total s t)

pub text_leb_antisym : (s t : Text) → text_leb s t ≡ true → text_leb t s ≡ true → s ≡ t
unfolding text_leb
text_leb_antisym [] [] h k = refl
text_leb_antisym [] (y ∷ t) h k = cc
text_leb_antisym (x ∷ s) [] h k = cc
text_leb_antisym (x ∷ s) (y ∷ t) h k = ground (arith, text_leb_antisym s t)

pub text_leb_trans :
    (s t u : Text) → text_leb s t ≡ true → text_leb t u ≡ true → text_leb s u ≡ true
unfolding text_leb
text_leb_trans [] t u h k = refl
text_leb_trans (x ∷ s) [] u h k = cc
text_leb_trans (x ∷ s) (y ∷ t) [] h k = cc
text_leb_trans (x ∷ s) (y ∷ t) (z ∷ u) h k = ground (arith, text_leb_trans s t u)

-- A search finds the same in the sorted list.
module _ {A K : Type 0} (le : K → K → Bool) (key : A → K) (p : A → Bool) where
  pub any-insert : (a : A) (xs : List A) → any p (insert le key a xs) ≡ (p a || any p xs)
  unfolding insert
  any-insert a [] = refl
  any-insert a (x ∷ xs) = ground (arith, any-insert a xs)

  pub any-sort_by : (xs : List A) → any p (sort_by le key xs) ≡ any p xs
  unfolding sort_by
  any-sort_by [] = refl
  any-sort_by (x ∷ xs) = any-insert x (sort_by le key xs) ∙ ap (λ b. p x || b) (any-sort_by xs)

abbrev pub contains : Text → List Text → Bool
contains a xs = any (λ x. x == a) xs

-- Texts in strictly ascending order.
abbrev pub IsAscending : List Text → Type 0
IsAscending [] = Unit
IsAscending (x ∷ xs) = All (λ y. (text_leb x y ≡ true) × (x ≢ y)) xs × IsAscending xs

abbrev pub IsDistinct : List Text → Type 0
IsDistinct [] = Unit
IsDistinct (x ∷ xs) = (contains x xs ≡ false) × IsDistinct xs

abbrev Below : Text → Text → Type 0
Below x y = (text_leb x y ≡ true) × (x ≢ y)

Below-trans : (x y z : Text) → Below x y → Below y z → Below x z
Below-trans x y z (h, n) (k, m) =
    (text_leb_trans x y z h k, λ e. m (text_leb_antisym y z k (rw (← e) h)))

All-Below : (x y : Text) (xs : List Text) → Below x y → All (Below y) xs → All (Below x) xs
All-Below x y [] h u = tt
All-Below x y (z ∷ xs) h (k, u) = (Below-trans x y z h k, All-Below x y xs h u)

abbrev sorted : List Text → List Text
sorted = sort_by text_leb (λ a. a)

abbrev inserted : Text → List Text → List Text
inserted = insert text_leb (λ a. a)

module _ (P : Text → Type 0) where
  All-inserted : (a : Text) (xs : List Text) → P a → All P xs → All P (inserted a xs)
  unfolding insert
  All-inserted a [] p u = (p, tt)
  All-inserted a (x ∷ xs) p (q, u) = elim (Bool-cases (text_leb a x)) [
    | inl h ↦ rw h (p, (q, u))
    | inr h ↦ rw h (q, All-inserted a xs p u)
  ]

inserted-IsAscending :
    (a : Text) (xs : List Text)
    → contains a xs ≡ false
    → IsAscending xs
    → IsAscending (inserted a xs)
unfolding insert
inserted-IsAscending a [] n u = (tt, tt)
inserted-IsAscending a (x ∷ xs) n (h, u) = elim (Bool-cases (text_leb a x)) [
  | inl below ↦
      let first : Below a x = (below, ground (arith, text_beq_iff x a)) in
      rw below ((first, All-Below a x xs first h), (h, u))
  | inr above ↦
      let first : Below x a = (text_leb_total a x above, ground (arith, text_beq_iff x a)) in
      rw above (All-inserted (Below x) a xs first h, inserted-IsAscending a xs (ground arith) u)
]

pub sort-IsAscending : (xs : List Text) → IsDistinct xs → IsAscending (sorted xs)
unfolding sort_by
sort-IsAscending [] u = tt
sort-IsAscending (x ∷ xs) (n, u) =
    inserted-IsAscending x (sorted xs) (any-sort_by text_leb (λ a. a) (λ y. y == x) xs ∙ n)
      (sort-IsAscending xs u)
