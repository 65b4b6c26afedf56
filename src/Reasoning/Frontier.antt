-- ===== src/Reasoning/Frontier.antt =====
-- What one round of `_bfs_reachable` of argus/reasoning/engine.py finds.
use argus_os.Prelude.{
  String, Bool, true, false, not, ◌≡◌, refl, ap, List, [], ◌∷◌, arith, inl, inr, ◌↔◌, ◌||◌, ◌&&◌,
  string_eq, eq_iff, ◌==◌, Bool-cases,
}
use argus_os.Prelude.Lists.{is_in, NoDup, NoDup-snoc, is_in-append}
use argus_os.Graph.{Relationship}
use argus_os.Reasoning.{is_at, discover, discover_all}
use argus_os.Reasoning.Search.{In}

is_in-discover :
    (visited : List String) (id x : String) (ids : List String)
    → is_in x (discover visited id ids) ≡ ((id == x && not (is_in x visited)) || is_in x ids)
unfolding discover is_in
is_in-discover visited id x ids = elim (Bool-cases (id == x)) [
  | inl e ↦ rw ((eq_iff id x).0 e) (ground (arith, is_in-append x ids (x ∷ []), eq_iff x x))
  | inr e ↦ ground (arith, is_in-append x ids (id ∷ []))
]

-- An end of some relationship.
abbrev pub some_at : String → List Relationship → Bool
some_at x [] = false
some_at x (r ∷ rs) = is_at x r || some_at x rs

pub is_in-discover_all :
    (visited : List String) (x : String) (rs : List Relationship) (ids : List String)
    → is_in x (discover_all visited rs ids)
      ≡ ((some_at x rs && not (is_in x visited)) || is_in x ids)
unfolding discover_all is_at
is_in-discover_all visited x [] ids = refl
is_in-discover_all visited x (r ∷ rs) ids =
    let once = discover visited r.source_entity_id ids in
    ground (
      arith,
      is_in-discover_all visited x rs (discover visited r.target_entity_id once),
      is_in-discover visited r.target_entity_id x once,
      is_in-discover visited r.source_entity_id x ids,
    )

NoDup-discover :
    (visited : List String) (id : String) (ids : List String)
    → NoDup ids
    → NoDup (discover visited id ids)
unfolding discover
NoDup-discover visited id ids n = elim (Bool-cases (is_in id visited || is_in id ids)) [
  | inl e ↦ rw e n
  | inr e ↦ rw e (NoDup-snoc id ids (ground arith) n)
]

pub NoDup-discover_all :
    (visited : List String) (rs : List Relationship) (ids : List String)
    → NoDup ids
    → NoDup (discover_all visited rs ids)
unfolding discover_all
NoDup-discover_all visited [] ids n = n
NoDup-discover_all visited (r ∷ rs) ids n =
    NoDup-discover_all visited rs _ (
      NoDup-discover visited r.target_entity_id _ (NoDup-discover visited r.source_entity_id ids n))

pub some_at-In :
    (x : String) (rs : List Relationship)
    → (some_at x rs ≡ true) ↔ ((r : Relationship) × (In r rs × (is_at x r ≡ true)))
some_at-In x [] = (λ h. cc, λ h. absurd h.1.0)
some_at-In x (r ∷ rs) = (
  λ h. elim (Bool-cases (is_at x r)) [
    | inl e ↦ (r, (inl refl, e))
    | inr e ↦ let (q, (m, at)) = (some_at-In x rs).0 (ground arith) in (q, (inr m, at))
  ],
  λ h. elim h.1.0 [
    | inl e ↦ ground (arith, ap (is_at x) e)
    | inr m ↦ ground (arith, (some_at-In x rs).1 (h.0, (m, h.1.1)))
  ],
)
