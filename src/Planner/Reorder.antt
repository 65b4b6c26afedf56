-- ===== src/Planner/Reorder.antt =====
-- reorder_steps of argus/planner/planner.py: the order of the steps afterwards.
use mathlib.Core.List.{append-nil, append_assoc}
use argus_os.Prelude.{
  ℕ, suc, String, true, false, ◌≡◌, refl, ap, sym, ◌∙◌, some, List, [], ◌∷◌, map, arith, ◌||◌, ◌==◌,
  string_eq, eq_iff, ok, ◌++◌, Bool-cases, inl, inr,
}
use argus_os.Prelude.Lists.{is_in, All, NoDup}
use argus_os.Prelude.Dict.{Dict, lookup, insert, lookup-insert, lookup-empty}
use argus_os.Planner.{
  PlanStep, PlanStatus, Plan, Planner, renumber, key, by_id, get_steps, is_permutation, all_in,
  step_id, reorder_steps,
}

-- Every step stands under its own id.
abbrev IsKeyed : Dict String PlanStep → Type 0
IsKeyed d = (i : String) (s : PlanStep) → lookup i d ≡ some s → s.id ≡ i

by_id-IsKeyed : (d : Dict String PlanStep) (ss : List PlanStep) → IsKeyed d → IsKeyed (by_id d ss)
unfolding by_id
by_id-IsKeyed d [] k = k
by_id-IsKeyed d (s ∷ ss) k =
    by_id-IsKeyed (insert s.id s d) ss
      (λ i t h. ground (arith, lookup-insert s.id i s d, eq_iff s.id i, k i t))

is_in-keys :
    (i : String) (d : Dict String PlanStep)
    → is_in i (map key d) ≡ true
    → (s : PlanStep) × (lookup i d ≡ some s)
unfolding is_in lookup
is_in-keys i [] h = cc
is_in-keys i ((j, s) ∷ d) h = elim (Bool-cases (j == i)) [
  | inl e ↦ (s, ground arith)
  | inr e ↦ let (t, found) = is_in-keys i d (ground arith) in (t, ground arith)
]

-- A new key goes to the end; so the keys are the ids of the steps, if no two steps share one.
keys-insert :
    (i : String) (s : PlanStep) (d : Dict String PlanStep)
    → is_in i (map key d) ≡ false
    → map key (insert i s d) ≡ map key d ++ i ∷ []
unfolding is_in insert
keys-insert i s [] h = refl
keys-insert i s ((j, t) ∷ d) h = ground (arith, keys-insert i s d)

is_in-keys_insert :
    (x i : String) (s : PlanStep) (d : Dict String PlanStep)
    → is_in x (map key (insert i s d)) ≡ (i == x || is_in x (map key d))
unfolding is_in insert
is_in-keys_insert x i s [] = ground arith
is_in-keys_insert x i s ((j, t) ∷ d) =
    ground (arith, is_in-keys_insert x i s d, eq_iff i j, eq_iff i x, eq_iff j x, eq_iff j i)

-- No step has an id that is a key already.
abbrev Apart : Dict String PlanStep → List PlanStep → Type 0
Apart d ss = All (λ (s : PlanStep). is_in s.id (map key d) ≡ false) ss

Apart-insert :
    (s : PlanStep) (d : Dict String PlanStep) (ss : List PlanStep)
    → is_in s.id (map step_id ss) ≡ false
    → Apart d ss
    → Apart (insert s.id s d) ss
unfolding is_in
Apart-insert s d [] n a = tt
Apart-insert s d (t ∷ ss) n a = (
  ground (arith, is_in-keys_insert t.id s.id s d, eq_iff s.id t.id, eq_iff t.id s.id),
  Apart-insert s d ss (ground arith) a.1,
)

Apart-empty : (ss : List PlanStep) → Apart [] ss
unfolding is_in
Apart-empty [] = tt
Apart-empty (s ∷ ss) = (refl, Apart-empty ss)

keys-by_id :
    (d : Dict String PlanStep) (ss : List PlanStep)
    → NoDup (map step_id ss)
    → Apart d ss
    → map key (by_id d ss) ≡ map key d ++ map step_id ss
unfolding by_id
keys-by_id d [] n a = sym (append-nil (map key d))
keys-by_id d (s ∷ ss) n a =
    keys-by_id (insert s.id s d) ss n.1 (Apart-insert s d ss n.0 a.1)
    ∙ ap (λ ks. ks ++ map step_id ss) (keys-insert s.id s d a.0)
    ∙ append_assoc (map key d) (s.id ∷ []) (map step_id ss)

map-renumber : (k : ℕ) (ss : List PlanStep) → map step_id (renumber k ss) ≡ map step_id ss
unfolding renumber
map-renumber k [] = refl
map-renumber k (s ∷ ss) = ap (λ is. s.id ∷ is) (map-renumber (suc k) ss)

-- Where all ids are keys, no id is missing, and the steps have the ids asked for.
get_steps-all_in :
    (d : Dict String PlanStep) (ids : List String)
    → IsKeyed d
    → all_in ids (map key d) ≡ true
    → (ss : List PlanStep) × ((get_steps d ids ≡ some ss) × (map step_id ss ≡ ids))
unfolding all_in get_steps
get_steps-all_in d [] k h = ([], (refl, refl))
get_steps-all_in d (i ∷ ids) k h =
    let (s, found) = is_in-keys i d (ground arith) in
    let (ss, (rest, e)) = get_steps-all_in d ids k (ground arith) in
    (s ∷ ss, (ground arith, ground (arith, k i s found)))

module _ (plan_id : String) (step_ids : List String) (p : Planner) (plan : Plan)
    (found : lookup plan_id p.plans ≡ some plan) (distinct : NoDup (map step_id plan.steps)) where
  keys-eq : map key (by_id [] plan.steps) ≡ map step_id plan.steps
  keys-eq = keys-by_id [] plan.steps distinct (Apart-empty plan.steps)

  -- For a plan whose steps have different ids: if the ids asked for are those of the plan's steps,
  -- each once, then `reorder_steps` succeeds, and the plan that it answers and stores has its steps
  -- in the order asked for.
  pub reorder_steps_lem :
      is_permutation step_ids (map step_id plan.steps) ≡ true
      → (updated : Plan) × (((reorder_steps plan_id step_ids p).0 ≡ ok updated)
          × (((reorder_steps plan_id step_ids p).1.plans ≡ insert plan_id updated p.plans)
              × (map step_id updated.steps ≡ step_ids)))
  unfolding reorder_steps is_permutation
  reorder_steps_lem h =
      let (ss, (e, same)) =
        get_steps-all_in (by_id [] plan.steps) step_ids
          (by_id-IsKeyed [] plan.steps (λ i s q. ground (arith, lookup-empty {V = PlanStep} i)))
          (ground (arith, keys-eq)) in
      (
        record plan { steps = renumber 0 ss; status = PlanStatus.created },
        (ground (arith, keys-eq), (ground (arith, keys-eq), map-renumber 0 ss ∙ same)),
      )
