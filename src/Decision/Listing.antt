-- ===== src/Decision/Listing.antt =====
-- argus/decision/engine.py: the order in which `list_rules` gives the rules.
use argus_os.Prelude.{
  ℕ, ◌+◌, ◌<◌, String, Bool, ◌≡◌, refl, ap, ◌∙◌, none, some, List, [], ◌∷◌, map, arith, ok,
  string_eq, eq_iff,
}
use argus_os.Prelude.Lists.{All}
use argus_os.Prelude.Dict.{Dict, lookup, insert, values, lookup-insert}
use argus_os.Prelude.Entries.{UniqueKeys}
use argus_os.Prelude.Sort.{place, sort, All-sort}
use argus_os.Decision.{
  DecisionRule, DecisionEngine, Keyed, int_leb, goes_before, rule_of, registration_index, keyed,
  list_rules,
}
use argus_os.Decision.Rules.{keys, IsRegistered}

-- Each rule with the number of those before it.
abbrev numbered : ℕ → Dict String DecisionRule → List Keyed
numbered n [] = []
numbered n ((id, r) ∷ d) = (r, n) ∷ numbered (n + 1) d

abbrev Agrees : Dict String ℕ → ℕ → Dict String DecisionRule → Type 0
Agrees index n [] = Unit
Agrees index n ((id, r) ∷ d) = (lookup id index ≡ some n) × Agrees index (n + 1) d

index-absent :
    (k : String) (n : ℕ) (d : Dict String DecisionRule) (e : Dict String ℕ)
    → lookup k d ≡ none
    → lookup k (registration_index n (keys d) e) ≡ lookup k e
unfolding lookup registration_index
index-absent k n [] e h = refl
index-absent k n ((j, r) ∷ d) e h =
    ground (arith, index-absent k (n + 1) d (insert j n e), lookup-insert j k n e)

registration_index-Agrees :
    (n : ℕ) (d : Dict String DecisionRule) (e : Dict String ℕ)
    → UniqueKeys d
    → Agrees (registration_index n (keys d) e) n d
unfolding registration_index
registration_index-Agrees n [] e u = tt
registration_index-Agrees n ((j, r) ∷ d) e u = (
  ground (arith, index-absent j (n + 1) d (insert j n e) u.0, lookup-insert j j n e, eq_iff j j),
  registration_index-Agrees (n + 1) d (insert j n e) u.1,
)

keyed-numbered :
    (index : Dict String ℕ) (n : ℕ) (d : Dict String DecisionRule) (s : DecisionEngine)
    → Agrees index n d
    → keyed index d s ≡ (ok (numbered n d), s)
unfolding keyed
keyed-numbered index n [] s a = refl
keyed-numbered index n ((j, r) ∷ d) s a = ground (arith, a.0, keyed-numbered index (n + 1) d s a.1)

numbered-above :
    (n m : ℕ) (d : Dict String DecisionRule) → n < m → All (λ k. n < k.1) (numbered m d)
numbered-above n m [] h = tt
numbered-above n m ((j, r) ∷ d) h = (h, numbered-above n (m + 1) d (omega arith))

abbrev pub by_priority : DecisionRule → DecisionRule → Bool
by_priority a b = int_leb a.priority b.priority

-- Before rules that were registered later, the index does not count.
place-rule_of :
    (r : DecisionRule) (n : ℕ) (ks : List Keyed)
    → All (λ k. n < k.1) ks
    → map rule_of (place goes_before (r, n) ks) ≡ place by_priority r (map rule_of ks)
unfolding place goes_before
place-rule_of r n [] h = refl
place-rule_of r n ((q, m) ∷ ks) h = ground (arith, place-rule_of r n ks h.1, h.0)

sort-numbered :
    (n : ℕ) (d : Dict String DecisionRule)
    → map rule_of (sort goes_before (numbered n d)) ≡ sort by_priority (values d)
unfolding sort
sort-numbered n [] = refl
sort-numbered n ((j, r) ∷ d) =
    place-rule_of r n (sort goes_before (numbered (n + 1) d))
      (All-sort goes_before (λ k. n < k.1) _ (numbered-above n (n + 1) d (omega arith)))
    ∙ ap (place by_priority r) (sort-numbered (n + 1) d)

-- In a consistent engine `list_rules` raises no KeyError, changes nothing and answers the rules in a
-- stable sort by priority of the order in which they were registered.
pub list_rules_lem :
    (s : DecisionEngine)
    → IsRegistered s
    → list_rules s ≡ (ok (sort by_priority (values s.rules)), s)
unfolding list_rules
list_rules_lem s h =
    let index = registration_index 0 s.registration_order [] in
    let agrees : Agrees index 0 s.rules =
      rw (h.order) (registration_index-Agrees 0 s.rules [] h.unique) in
    ground (arith, keyed-numbered index 0 s.rules s agrees, sort-numbered 0 s.rules)
