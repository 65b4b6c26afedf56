-- ===== src/Prelude/Returns.antt =====
-- Methods that return: what a method answers and leaves, where it does not raise.
use mathlib.Core.Path.{◌≡◌, ◌∙◌}
use native.Mathlib.Omega.{arith}
use argus_os.Prelude.Actions.{ok, Exec, ◌>>=◌}

-- From the state `s` the method returns, with `Q` of its answer and of the state then.
abbrev pub Returns : {E S A : Type 0} → Exec E S A → S → (A → S → Type 0) → Type 0
Returns {E} {S} {A} m s Q = (a : A) × ((t : S) × ((m s ≡ (ok a, t)) × Q a t))

module _ {E S A B : Type 0} (m : Exec E S A) (f : A → Exec E S B) (s : S) where
  bind-ok : (a : A) (t : S) → m s ≡ (ok a, t) → (m >>= f) s ≡ f a t
  bind-ok a t p = ground arith

  pub Returns-bind :
      (Q : A → S → Type 0) (R : B → S → Type 0)
      → Returns m s Q
      → ((a : A) (t : S) → Q a t → Returns (f a) t R)
      → Returns (m >>= f) s R
  Returns-bind Q R (a, (t, (p, q))) k =
      let (b, (u, (e, r))) = k a t q in (b, (u, (bind-ok a t p ∙ e, r)))
