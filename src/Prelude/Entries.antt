-- ===== src/Prelude/Entries.antt =====
-- The entries of a dict, for code that iterates over `d.items()`.
use mathlib.Core.Path.{◌≡◌}
use mathlib.Core.Logic.{◌⊎◌}
use mathlib.Core.Bool.{false}
use mathlib.Core.Option.{none, some}
use mathlib.Core.List.{[], ◌∷◌}
use native.Mathlib.Omega.{arith}
use argus_os.Prelude.Tests.{Eq, ◌==◌}
use argus_os.Prelude.Dict.{Dict, lookup, insert, erase, lookup-insert, lookup-erase, lookup-empty}

-- The dict's list of items has `v` under `k`.
abbrev pub Has : {K V : Type 0} → K → V → Dict K V → Type 0
Has k v [] = ⊥
Has k v ((j, w) ∷ d) = ((j ≡ k) × (w ≡ v)) ⊎ Has k v d

module _ {K V : Type 0} ⦃e : Eq K⦄ where
  -- An entry after a write has the value written, or was there before.
  pub Has-insert :
      (k : K) (v : V) (j : K) (w : V) (d : Dict K V)
      → Has j w (insert k v d)
      → ((v ≡ w) × (k ≡ j)) ⊎ Has j w d
  unfolding insert
  Has-insert k v j w [] h = ground arith
  Has-insert k v j w ((i, u) ∷ d) h = ground (arith, e.beq_iff i k, Has-insert k v j w d)

  -- An entry after a deletion was there before, under another key.
  pub Has-erase :
      (k j : K) (w : V) (d : Dict K V) → Has j w (erase k d) → ((j == k) ≡ false) × Has j w d
  unfolding erase
  Has-erase k j w [] h = absurd h
  Has-erase k j w ((i, u) ∷ d) h = ground (arith, e.beq_iff i k, e.beq_iff j k, Has-erase k j w d)

  -- What is found under a key is an entry.
  pub Has-lookup : (k : K) (v : V) (d : Dict K V) → lookup k d ≡ some v → Has k v d
  unfolding lookup
  Has-lookup k v [] h = cc
  Has-lookup k v ((i, u) ∷ d) h = ground (arith, e.beq_iff i k, Has-lookup k v d)

-- No key is listed twice.
abbrev pub UniqueKeys : {K V : Type 0} ⦃e : Eq K⦄ → Dict K V → Type 0
UniqueKeys [] = Unit
UniqueKeys ((k, v) ∷ d) = (lookup k d ≡ none) × UniqueKeys d

module _ {K V : Type 0} ⦃e : Eq K⦄ where
  pub UniqueKeys-insert : (k : K) (v : V) (d : Dict K V) → UniqueKeys d → UniqueKeys (insert k v d)
  unfolding insert
  UniqueKeys-insert k v [] u = (lookup-empty k, tt)
  UniqueKeys-insert k v ((i, w) ∷ d) u =
      ground
        (arith, UniqueKeys-insert k v d u.1, lookup-insert k i v d, e.beq_iff i k, e.beq_iff k i)

  pub UniqueKeys-erase : (k : K) (d : Dict K V) → UniqueKeys d → UniqueKeys (erase k d)
  unfolding erase
  UniqueKeys-erase k [] u = tt
  UniqueKeys-erase k ((i, w) ∷ d) u = ground (arith, UniqueKeys-erase k d u.1, lookup-erase k i d)

  -- Where no key is listed twice, every entry is found.
  pub lookup-Has : (k : K) (v : V) (d : Dict K V) → UniqueKeys d → Has k v d → lookup k d ≡ some v
  unfolding lookup
  lookup-Has k v [] u h = absurd h
  lookup-Has k v ((i, w) ∷ d) u h = ground (arith, lookup-Has k v d u.1, e.beq_iff i k)
