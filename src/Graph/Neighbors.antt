-- ===== src/Graph/Neighbors.antt =====
-- The query `neighbors` of argus/knowledge_graph/graph.py.
use argus_os.Prelude.{
  String, ◌≡◌, refl, sym, ◌∙◌, Bool, true, false, Option, none, some, List, [], ◌∷◌, ◌++◌, Result,
  ok, arith, map, is_empty, ◌&&◌, ◌||◌, string_eq, eq_iff, ◌==◌, Option-cases, inl, inr, Bool-cases,
}
use argus_os.Prelude.Lists.{is_in, NoDup, NoDup-snoc, is_in-append, All}
use argus_os.Prelude.Dict.{Dict, lookup, contains}
use argus_os.Prelude.Entries.{Has}
use argus_os.Graph.{
  Entity, Relationship, KnowledgeGraph, GraphError, other_end, append_new, neighbor_ids, get_all,
  neighbors,
}
use argus_os.Graph.Integrity.{IsConsistent}

-- The relationship joins two entities.
abbrev pub joins : Relationship → String → String → Bool
joins r x y =
    (r.source_entity_id == x && r.target_entity_id == y)
    || (r.target_entity_id == x && r.source_entity_id == y)

abbrev pub some_joins : Dict String Relationship → String → String → Bool
some_joins [] x y = false
some_joins ((k, r) ∷ rs) x y = joins r x y || some_joins rs x y

joins_sym : (r : Relationship) (x y : String) → joins r x y ≡ joins r y x
joins_sym r x y = ground arith

some_joins_sym :
    (rs : Dict String Relationship) (x y : String) → some_joins rs x y ≡ some_joins rs y x
some_joins_sym [] x y = refl
some_joins_sym ((k, r) ∷ rs) x y = ground (arith, joins_sym r x y, some_joins_sym rs x y)

is_in-append_new :
    (x y : String) (r : Relationship) (ids : List String)
    → is_in y (append_new (other_end x r) ids) ≡ (joins r x y || is_in y ids)
unfolding append_new other_end is_in
is_in-append_new x y r ids = ground (
  arith,
  is_in-append y ids (r.target_entity_id ∷ []),
  is_in-append y ids (r.source_entity_id ∷ []),
  eq_iff r.target_entity_id y,
  eq_iff r.source_entity_id y,
  eq_iff r.target_entity_id x,
  eq_iff r.source_entity_id x,
)

is_in-neighbor_ids :
    (x y : String) (rs : Dict String Relationship) (ids : List String)
    → is_in y (neighbor_ids x rs ids) ≡ (some_joins rs x y || is_in y ids)
unfolding neighbor_ids
is_in-neighbor_ids x y [] ids = refl
is_in-neighbor_ids x y ((k, r) ∷ rs) ids =
    ground (
      arith,
      is_in-neighbor_ids x y rs (append_new (other_end x r) ids),
      is_in-append_new x y r ids,
    )

NoDup-append_new : (o : Option String) (ids : List String) → NoDup ids → NoDup (append_new o ids)
unfolding append_new
NoDup-append_new none ids n = n
NoDup-append_new (some k) ids n = elim (Bool-cases (is_in k ids)) [
  | inl old ↦ rw old n
  | inr new ↦ rw new (NoDup-snoc k ids new n)
]

NoDup-neighbor_ids :
    (x : String) (rs : Dict String Relationship) (ids : List String)
    → NoDup ids
    → NoDup (neighbor_ids x rs ids)
unfolding neighbor_ids
NoDup-neighbor_ids x [] ids n = n
NoDup-neighbor_ids x ((k, r) ∷ rs) ids n =
    NoDup-neighbor_ids x rs (append_new (other_end x r) ids)
      (NoDup-append_new (other_end x r) ids n)

All-snoc :
    (P : String → Type 0) {k : String} (ks : List String) → All P ks → P k → All P (ks ++ k ∷ [])
All-snoc P [] a p = (p, tt)
All-snoc P (j ∷ ks) a p = (a.0, All-snoc P ks a.1 p)

abbrev pub ids : List Entity → List String
ids es = map (λ e. e.id) es

same_answer :
    {g : KnowledgeGraph} (xs ys : List Entity)
    → ◌≡◌ {A = Result GraphError (List Entity) × KnowledgeGraph} (ok xs, g) (ok ys, g)
    → xs ≡ ys
same_answer xs ys h = ground arith

module _ (g : KnowledgeGraph) (c : IsConsistent g) where
  abbrev IsKnown : String → Type 0
  IsKnown k = contains k g.entities ≡ true

  abbrev IsKnownOption : Option String → Type 0
  IsKnownOption none = Unit
  IsKnownOption (some k) = IsKnown k

  All-append_option :
      (o : Option String) (ks : List String)
      → IsKnownOption o
      → All IsKnown ks
      → All IsKnown (append_new o ks)
  unfolding append_new
  All-append_option none ks h a = a
  All-append_option (some k) ks h a = elim (Bool-cases (is_in k ks)) [
    | inl old ↦ rw old a
    | inr new ↦ rw new (All-snoc IsKnown ks a h)
  ]

  other_end-known :
      (x : String) (r : Relationship)
      → IsKnown r.source_entity_id
      → IsKnown r.target_entity_id
      → IsKnownOption (other_end x r)
  unfolding other_end
  other_end-known x r s t = ground arith

  All-append_new :
      (x k : String) (r : Relationship) (ks : List String)
      → Has k r g.relationships
      → All IsKnown ks
      → All IsKnown (append_new (other_end x r) ks)
  All-append_new x k r ks h a =
      All-append_option (other_end x r) ks (other_end-known x r (c.source k r h) (c.target k r h)) a

  All-neighbor_ids :
      (x : String) (rs : Dict String Relationship) (ks : List String)
      → ((k : String) (r : Relationship) → Has k r rs → Has k r g.relationships)
      → All IsKnown ks
      → All IsKnown (neighbor_ids x rs ks)
  unfolding neighbor_ids
  All-neighbor_ids x [] ks sub a = a
  All-neighbor_ids x ((k, r) ∷ rs) ks sub a =
      All-neighbor_ids x rs (append_new (other_end x r) ks) (λ j s h. sub j s (inr h))
        (All-append_new x k r ks (sub k r (inl (refl, refl))) a)

  get_all_known :
      (ks : List String)
      → All IsKnown ks
      → (es : List Entity) × (get_all ks g ≡ (ok es, g)) × (ids es ≡ ks)
  unfolding get_all
  get_all_known [] a = ([], refl, refl)
  get_all_known (k ∷ ks) a = elim (Option-cases (lookup k g.entities)) [
    | inl absent ↦ absurd (ground arith)
    | inr (e, found) ↦
        let (es, all, same) = get_all_known ks a.1 in
        (e ∷ es, ground arith, ground (arith, c.entity_id k e found))
  ]

  -- In a consistent graph the query of an entity that is there returns, and changes nothing; it
  -- lists, each once, exactly the entities that some relationship joins to it, in either direction.
  pub neighbors_lem :
      (x : String) (e : Entity)
      → is_empty x ≡ false
      → lookup x g.entities ≡ some e
      → (es : List Entity) × (neighbors x g ≡ (ok es, g))
        × NoDup (ids es)
        × ((y : String) → is_in y (ids es) ≡ some_joins g.relationships x y)
  unfolding neighbors is_in
  neighbors_lem x e named found =
      let ks : List String = neighbor_ids x g.relationships [] in
      let (es, all, same) =
        get_all_known ks (All-neighbor_ids x g.relationships [] (λ k r h. h) tt) in
      (
        es,
        ground arith,
        rw same (NoDup-neighbor_ids x g.relationships [] tt),
        λ y. rw same (ground (arith, is_in-neighbor_ids x y g.relationships [])),
      )

  neighbors_found :
      (x : String) (xs : List Entity)
      → neighbors x g ≡ (ok xs, g)
      → (e : Entity) × (is_empty x ≡ false) × (lookup x g.entities ≡ some e)
  unfolding neighbors
  neighbors_found x xs h = elim (Bool-cases (is_empty x)) [
    | inl bad ↦ absurd (ground arith)
    | inr good ↦ elim (Option-cases (lookup x g.entities)) [
      | inl absent ↦ absurd (ground arith)
      | inr (e, found) ↦ (e, good, found)
    ]
  ]

  neighbors_answer :
      (x y : String) (xs : List Entity)
      → neighbors x g ≡ (ok xs, g)
      → is_in y (ids xs) ≡ some_joins g.relationships x y
  neighbors_answer x y xs h =
      let (e, named, found) = neighbors_found x xs h in
      let (es, all, once, exact) = neighbors_lem x e named found in
      rw (← same_answer es xs (sym all ∙ h)) (exact y)

  -- In a consistent graph being neighbors is symmetric: if the queries of `x` and `y` return, `y` is
  -- among the answers of the first exactly if `x` is among those of the second.
  neighbors_sym :
      (x y : String) (xs ys : List Entity)
      → neighbors x g ≡ (ok xs, g)
      → neighbors y g ≡ (ok ys, g)
      → is_in y (ids xs) ≡ is_in x (ids ys)
  neighbors_sym x y xs ys hx hy =
      neighbors_answer x y xs hx
      ∙ some_joins_sym g.relationships x y
      ∙ sym (neighbors_answer y x ys hy)
