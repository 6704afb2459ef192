-- ===== src/Policy/Fold.antt =====
-- The accumulator of the policy chain as a fold over the results of its scripts, and that fold said
-- without an accumulator (crates/carriers-core/src/policy.rs, `run_scripts` and `Accumulator`).
use mathlib.Core.Path.{fun_ext}
use mathlib.Core.List.{map-append}
use carriers.Base.{
  Bool, true, false, ◌||◌, none, some, List, [], ◌∷◌, ◌++◌, map, any, find, Result, ok, err,
  and_then, and_then_assoc, sym, if◌then◌else◌, arith, ◌≡◌, refl, ◌∙◌, ap, Bool-cases, inl, inr,
}
use carriers.Policy.{}
use carriers.Policy.Outcome.{
  PolicyDecision, approve, moderate, PolicyOutcome, Accumulator, default_accumulator, merge,
  is_terminal,
}

-- The fold of `run_scripts` over results that are known.
unfoldable pub fold : List (Result PolicyOutcome) → Accumulator → Result Accumulator
fold [] acc = ok acc
fold (r ∷ rs) acc =
    let rest = and_then r (λ out. fold rs (merge acc out)) in
    if is_terminal acc.decision then ok acc else rest

pub fold-terminal :
    (qs : List (Result PolicyOutcome)) (acc : Accumulator)
    → is_terminal acc.decision ≡ true
    → fold qs acc ≡ ok acc
unfolding fold
fold-terminal [] acc h = refl
fold-terminal (q ∷ qs) acc h = rw h

pub fold-append :
    (rs qs : List (Result PolicyOutcome)) (acc : Accumulator)
    → fold (rs ++ qs) acc ≡ and_then (fold rs acc) (fold qs)
unfolding fold
fold-append [] qs acc = refl
fold-append (ok out ∷ rs) qs acc =
    ground (arith, fold-append rs qs (merge acc out), fold-terminal qs acc)
fold-append (err e ∷ rs) qs acc = ground (arith, fold-terminal qs acc)

pub and_then-fold_three :
    (xs ys zs : List (Result PolicyOutcome)) (acc : Accumulator)
    (k : Accumulator → Result PolicyOutcome)
    → and_then (fold (xs ++ (ys ++ zs)) acc) k
      ≡ and_then (fold xs acc) (λ a. and_then (fold ys a) (λ b. and_then (fold zs b) k))
and_then-fold_three xs ys zs acc k =
    ap (λ r. and_then r k) (fold-append xs (ys ++ zs) acc)
    ∙ and_then_assoc (fold xs acc) (fold (ys ++ zs)) k
    ∙ ap (and_then (fold xs acc)) (
        fun_ext λ a.
          ap (λ r. and_then r k) (fold-append ys zs a) ∙ and_then_assoc (fold ys a) (fold zs) k)

-- What the outcomes of tiers that ran without error come to, said without an accumulator.
-- The outcomes through the first that is a discard or a reject; no later script is run.
abbrev pub executed : List PolicyOutcome → List PolicyOutcome
executed [] = []
executed (o ∷ os) = o ∷ (if is_terminal o.decision then [] else executed os)

abbrev pub is_moderate : PolicyDecision → Bool
is_moderate moderate = true
is_moderate _ = false

-- The first discard or reject; without one, a hold if any outcome is a hold; else approval.
abbrev pub verdict : List PolicyOutcome → PolicyDecision
verdict os = elim (find (λ o. is_terminal o.decision) os) [
  | some o ↦ o.decision
  | none ↦ if any (λ o. is_moderate o.decision) os then moderate else approve
]

abbrev pub settled : List PolicyOutcome → PolicyOutcome
settled os = record {
  decision = verdict os;
  archive = any (λ o. o.archive) (executed os);
  no_own_dkim = any (λ o. o.no_own_dkim) (executed os);
  munge_from = any (λ o. o.munge_from) (executed os);
}

-- The accumulator after outcomes that are added to one which is not final.
abbrev pub onto : Accumulator → List PolicyOutcome → Accumulator
onto acc os = record {
  decision = elim (find (λ o. is_terminal o.decision) os) [
    | some o ↦ o.decision
    | none ↦ if any (λ o. is_moderate o.decision) os then moderate else acc.decision
  ];
  archive = acc.archive || any (λ o. o.archive) (executed os);
  no_own_dkim = acc.no_own_dkim || any (λ o. o.no_own_dkim) (executed os);
  munge_from = acc.munge_from || any (λ o. o.munge_from) (executed os);
}

module _ (acc : Accumulator) (o : PolicyOutcome) where
  merge-terminal : is_terminal o.decision ≡ true → is_terminal (merge acc o).decision ≡ true
  unfolding merge is_terminal
  merge-terminal h = ground arith

  merge-more :
      is_terminal acc.decision ≡ false
      → is_terminal o.decision ≡ false
      → is_terminal (merge acc o).decision ≡ false
  unfolding merge is_terminal
  merge-more h k = ground arith

  merge-last :
      (os : List PolicyOutcome)
      → is_terminal o.decision ≡ true
      → ok (merge acc o) ≡ ok (onto acc (o ∷ os))
  unfolding merge is_terminal
  merge-last os h = ground arith

  merge-next :
      (os : List PolicyOutcome)
      → is_terminal o.decision ≡ false
      → ok (onto (merge acc o) os) ≡ ok (onto acc (o ∷ os))
  unfolding merge is_terminal
  merge-next os h = ground arith

pub fold-onto :
    (os : List PolicyOutcome) (acc : Accumulator)
    → is_terminal acc.decision ≡ false
    → fold (map ok os) acc ≡ ok (onto acc os)
unfolding fold
fold-onto [] acc h = ground arith
fold-onto (o ∷ os) acc h = rw h (elim (Bool-cases (is_terminal o.decision)) [
  | inl last ↦
      fold-terminal (map ok os) (merge acc o) (merge-terminal acc o last) ∙ merge-last acc o os last
  | inr more ↦ fold-onto os (merge acc o) (merge-more acc o h more) ∙ merge-next acc o os more
])

pub fold_one :
    (out : PolicyOutcome) (acc : Accumulator)
    → is_terminal acc.decision ≡ false
    → fold (ok out ∷ []) acc ≡ ok (merge acc out)
unfolding fold
fold_one out acc h = rw h

pub fold_last :
    (out : PolicyOutcome) (rs : List (Result PolicyOutcome))
    → is_terminal out.decision ≡ true
    → fold (ok out ∷ rs) default_accumulator ≡ ok (merge default_accumulator out)
unfolding fold is_terminal
fold_last out rs h =
    fold-terminal rs (merge default_accumulator out) (merge-terminal default_accumulator out h)

-- One more outcome after outcomes that approve.
pub merge-onto :
    (os : List PolicyOutcome) (out : PolicyOutcome)
    → verdict os ≡ approve
    → ok (merge (onto default_accumulator os) out) ≡ ok (onto default_accumulator (os ++ out ∷ []))
merge-onto os out h =
    let start_open : is_terminal approve ≡ false = unfold is_terminal in refl in
    sym (fold_one out (onto default_accumulator os) (ap is_terminal h ∙ start_open))
    ∙ sym (ap (λ r. and_then r (fold (ok out ∷ []))) (fold-onto os default_accumulator start_open))
    ∙ sym (fold-append (map ok os) (ok out ∷ []) default_accumulator)
    ∙ ap (λ rs. fold rs default_accumulator) (sym (map-append ok os (out ∷ [])))
    ∙ fold-onto (os ++ out ∷ []) default_accumulator start_open
