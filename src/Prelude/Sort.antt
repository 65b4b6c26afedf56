-- ===== src/Prelude/Sort.antt =====
-- Python's `sorted`: a stable sort by an order that is given as a test.
use mathlib.Core.Path.{◌≡◌, refl}
use mathlib.Core.Logic.{inl, inr}
use mathlib.Core.Bool.{Bool, true, false, ◌&&◌}
use mathlib.Core.List.Perm
use mathlib.Core.List.{List, [], ◌∷◌, Perm}
use native.Mathlib.Omega.{arith}
use argus_os.Prelude.Tests.{if◌then◌else◌, Bool-cases}
use Prim.Native.Nat.{suc}
use argus_os.Prelude.Lists.{All, select, any, length}

module _ {A : Type 0} (le : A → A → Bool) where
  unfoldable pub place : A → List A → List A
  place x [] = x ∷ []
  place x (y ∷ ys) = let rest = place x ys in if le x y then x ∷ y ∷ ys else y ∷ rest

  unfoldable pub sort : List A → List A
  unfolding place
  sort [] = []
  sort (x ∷ xs) = place x (sort xs)

  -- Each element comes before all that follow it.
  abbrev pub IsSorted : List A → Type 0
  IsSorted [] = Unit
  IsSorted (x ∷ xs) = All (λ y. le x y ≡ true) xs × IsSorted xs

  -- The elements that the order does not tell from `x`.
  abbrev pub alike : A → A → Bool
  alike x y = le x y && le y x

  place-perm : (x : A) (xs : List A) → Perm (place x xs) (x ∷ xs)
  unfolding place
  place-perm x [] = Perm.refl (x ∷ [])
  place-perm x (y ∷ ys) = elim (Bool-cases (le x y)) [
    | inl before ↦ rw before (Perm.refl (x ∷ y ∷ ys))
    | inr behind ↦ rw behind (Perm.trans (Perm.cons y (place-perm x ys)) (Perm.swap x y ys))
  ]

  pub sort-perm : (xs : List A) → Perm (sort xs) xs
  unfolding sort
  sort-perm [] = Perm.refl []
  sort-perm (x ∷ xs) = Perm.trans (place-perm x (sort xs)) (Perm.cons x (sort-perm xs))

module _ {A : Type 0} (le : A → A → Bool) (p : A → Bool) where
  any-place : (x : A) (xs : List A) → any p (place le x xs) ≡ any p (x ∷ xs)
  unfolding place any
  any-place x [] = refl
  any-place x (y ∷ ys) = ground (arith, any-place x ys)

  pub any-sort : (xs : List A) → any p (sort le xs) ≡ any p xs
  unfolding sort any
  any-sort [] = refl
  any-sort (x ∷ xs) = rw (any-place, any-sort xs)

module _ {A : Type 0} (le : A → A → Bool) (P : A → Type 0) where
  All-place : (x : A) (xs : List A) → P x → All P xs → All P (place le x xs)
  unfolding place
  All-place x [] p a = (p, tt)
  All-place x (y ∷ ys) p a = elim (Bool-cases (le x y)) [
    | inl before ↦ rw before (p, a)
    | inr behind ↦ rw behind (a.0, All-place x ys p a.1)
  ]

  pub All-sort : (xs : List A) → All P xs → All P (sort le xs)
  unfolding sort
  All-sort [] a = tt
  All-sort (x ∷ xs) a = All-place x (sort le xs) a.0 (All-sort xs a.1)

-- A total preorder.
pub record IsOrder {A : Type 0} (le : A → A → Bool) : Type 0 where
  pub total : (x y : A) → le x y ≡ false → le y x ≡ true
  pub trans : (x y z : A) → le x y ≡ true → le y z ≡ true → le x z ≡ true

module _ {A : Type 0} (le : A → A → Bool) (o : IsOrder le) where
  All-below :
      (x y : A) (ys : List A)
      → le x y ≡ true
      → All (λ z. le y z ≡ true) ys
      → All (λ z. le x z ≡ true) ys
  All-below x y [] h a = tt
  All-below x y (z ∷ zs) h a = (o.trans x y z h a.0, All-below x y zs h a.1)

  place-IsSorted : (x : A) (xs : List A) → IsSorted le xs → IsSorted le (place le x xs)
  unfolding place
  place-IsSorted x [] s = (tt, tt)
  place-IsSorted x (y ∷ ys) s = elim (Bool-cases (le x y)) [
    | inl before ↦ rw before ((before, All-below x y ys before s.0), s)
    | inr behind ↦
        rw behind
          (All-place le (λ z. le y z ≡ true) x ys (o.total x y behind) s.0, place-IsSorted x ys s.1)
  ]

  pub sort-IsSorted : (xs : List A) → IsSorted le (sort le xs)
  unfolding sort
  sort-IsSorted [] = tt
  sort-IsSorted (x ∷ xs) = place-IsSorted x (sort le xs) (sort-IsSorted xs)

  -- An element is not moved past one that is like it.
  select-place :
      (k x : A) (xs : List A) → select (alike le k) (place le x xs) ≡ select (alike le k) (x ∷ xs)
  unfolding place select
  select-place k x [] = refl
  select-place k x (y ∷ ys) = elim (Bool-cases (le x y)) [
    | inl before ↦ rw before
    | inr behind ↦ rw behind (ground (arith, select-place k x ys, o.trans x k y))
  ]

  pub sort_stable :
      (k : A) (xs : List A) → select (alike le k) (sort le xs) ≡ select (alike le k) xs
  unfolding sort select
  sort_stable k [] = refl
  sort_stable k (x ∷ xs) = rw (select-place, sort_stable k xs)

-- Each element is related to all that follow it.
abbrev pub Ordered : {A : Type 0} → (A → A → Type 0) → List A → Type 0
Ordered R [] = Unit
Ordered R (x ∷ xs) = All (R x) xs × Ordered R xs

module _ {A : Type 0} (le : A → A → Bool) (o : IsOrder le) (P : A → Type 0) (R : A → A → Type 0)
    (means : (x y : A) → P x → P y → le x y ≡ true → R x y) where
  All-means : (x : A) (xs : List A) → P x → All P xs → All (λ y. le x y ≡ true) xs → All (R x) xs
  All-means x [] p a b = tt
  All-means x (y ∷ ys) p a b = (means x y p a.0 b.0, All-means x ys p a.1 b.1)

  IsSorted-Ordered : (xs : List A) → All P xs → IsSorted le xs → Ordered R xs
  IsSorted-Ordered [] a s = tt
  IsSorted-Ordered (x ∷ xs) a s = (All-means x xs a.0 a.1 s.0, IsSorted-Ordered xs a.1 s.1)

  -- A sorted list is ordered by whatever relation the test stands for.
  pub sort-Ordered : (xs : List A) → All P xs → Ordered R (sort le xs)
  sort-Ordered xs a = IsSorted-Ordered (sort le xs) (All-sort le P xs a) (sort-IsSorted le o xs)

module _ {A : Type 0} (le : A → A → Bool) where
  length-place : (x : A) (xs : List A) → length (place le x xs) ≡ suc (length xs)
  unfolding place
  length-place x [] = refl
  length-place x (y ∷ ys) = ground (arith, length-place x ys)

  pub length-sort : (xs : List A) → length (sort le xs) ≡ length xs
  unfolding sort
  length-sort [] = refl
  length-sort (x ∷ xs) = ground (arith, length-place x (sort le xs), length-sort xs)
