-- ===== src/Prelude/Lists.antt =====
-- Lists measured with native numbers, and predicates on lists by recursion.
use Prim.Native.Nat.{ℕ, zero, suc, ◌+◌}
use mathlib.Core.Path.{◌≡◌, refl}
use mathlib.Core.Bool.{Bool, true, false, ◌||◌}
use mathlib.Core.Option.{Option, none, some}
use mathlib.Core.List.{List, [], ◌∷◌, ◌++◌}
use native.Mathlib.Omega.{arith}
use argus_os.Prelude.Tests.{if◌then◌else◌, Eq, ◌==◌}

module _ {ℓ} {A : Type ℓ} where
  abbrev pub length : List A → ℕ
  length [] = 0
  length (x ∷ xs) = suc (length xs)

  abbrev pub get_elem? : List A → ℕ → Option A
  get_elem? [] i = none
  get_elem? (x ∷ xs) zero = some x
  get_elem? (x ∷ xs) (suc i) = get_elem? xs i

  -- `[x for x in xs if p(x)]`
  unfoldable pub select : (A → Bool) → List A → List A
  select p [] = []
  select p (x ∷ xs) = let rest = select p xs in if p x then x ∷ rest else rest

  pub length-append : (xs ys : List A) → length (xs ++ ys) ≡ length xs + length ys
  length-append [] ys = omega arith
  length-append (x ∷ xs) ys = omega (arith, length-append xs ys)

-- Every element satisfies the predicate.
abbrev pub All {ℓ κ} : {A : Type ℓ} → (A → Type κ) → List A → Type κ
All P [] = Unit
All P (x ∷ xs) = P x × All P xs

module _ {A : Type 0} (P : A → Type 0) where
  pub All-append : (xs ys : List A) → All P xs → All P ys → All P (xs ++ ys)
  All-append [] ys h k = k
  All-append (x ∷ xs) ys h k = (h.0, All-append xs ys h.1 k)

  pub All-select : (p : A → Bool) (xs : List A) → All P xs → All P (select p xs)
  unfolding select
  All-select p [] h = tt
  All-select p (x ∷ xs) h = ground (arith, All-select p xs h.1)

-- Two tests that agree on the elements select the same.
pub select_agree :
    {A : Type 0} (p q : A → Bool) (xs : List A)
    → All (λ x. p x ≡ q x) xs
    → select p xs ≡ select q xs
unfolding select
select_agree p q [] h = refl
select_agree p q (x ∷ xs) h = ground (arith, h.0, select_agree p q xs h.1)

pub All-always : {A : Type 0} (P : A → Type 0) (xs : List A) → ((x : A) → P x) → All P xs
All-always P [] h = tt
All-always P (x ∷ xs) h = (h x, All-always P xs h)

module _ {A : Type 0} ⦃e : Eq A⦄ where
  -- `x in xs`
  unfoldable pub is_in : A → List A → Bool
  is_in a [] = false
  is_in a (x ∷ xs) = x == a || is_in a xs

  -- No element stands in the list twice.
  abbrev pub NoDup : List A → Type 0
  NoDup [] = Unit
  NoDup (x ∷ xs) = (is_in x xs ≡ false) × NoDup xs

  pub is_in-append : (a : A) (xs ys : List A) → is_in a (xs ++ ys) ≡ (is_in a xs || is_in a ys)
  unfolding is_in
  is_in-append a [] ys = refl
  is_in-append a (x ∷ xs) ys = ground (arith, is_in-append a xs ys)

  pub NoDup-snoc : (a : A) (xs : List A) → is_in a xs ≡ false → NoDup xs → NoDup (xs ++ a ∷ [])
  unfolding is_in
  NoDup-snoc a [] h n = (refl, tt)
  NoDup-snoc a (x ∷ xs) h n = (
    ground (arith, is_in-append x xs (a ∷ []), e.beq_iff x a, e.beq_iff a x),
    NoDup-snoc a xs (ground arith) n.1,
  )

-- `any(p(x) for x in xs)`
unfoldable pub any {ℓ} : {A : Type ℓ} → (A → Bool) → List A → Bool
any p [] = false
any p (x ∷ xs) = p x || any p xs

-- What is selected passes the test.
pub select-All : {A : Type 0} (p : A → Bool) (xs : List A) → All (λ x. p x ≡ true) (select p xs)
unfolding select
select-All p [] = tt
select-All p (x ∷ xs) = ground (arith, select-All p xs)
