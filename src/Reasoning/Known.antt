-- ===== src/Reasoning/Known.antt =====
-- argus/reasoning/engine.py: the entities that the searches name are ends of relationships.
use argus_os.Prelude.{
  ℕ, zero, suc, String, true, ◌≡◌, Option, none, List, [], ◌∷◌, ◌++◌, map, arith, inl, inr, ◌||◌,
  string_eq, ◌==◌, eq_iff, Bool-cases,
}
use argus_os.Prelude.Lists.{is_in, All, All-append, All-select, select}
use argus_os.Prelude.Dict.{Dict, insert, contains, lookup-insert}
use argus_os.Graph.{Relationship}
use argus_os.Reasoning.{
  relationships_touching, other_endpoint, add_new, neighbor_ids, endpoint_ids, discover,
  discover_all, is_nil, new_ids, bfs_loop, bfs_reachable, PathIds, flat_map, dfs,
  enumerate_simple_paths,
}
use argus_os.Reasoning.Engine.{relationship_lookup, add_all_new, first_met}

module _ {A B : Type 0} (Q : B → Type 0) (f : A → List B) where
  All-flat_map :
      (P : A → Type 0)
      → ((x : A) → P x → All Q (f x))
      → (xs : List A) → All P xs
      → All Q (flat_map f xs)
  unfolding flat_map
  All-flat_map P k [] h = tt
  All-flat_map P k (x ∷ xs) h =
      All-append Q (f x) (flat_map f xs) (k x h.0) (All-flat_map P k xs h.1)

pub All-map :
    {A B : Type 0} (P : B → Type 0) (f : A → B) (xs : List A)
    → All (λ x. P (f x)) xs
    → All P (map f xs)
All-map P f [] h = tt
All-map P f (x ∷ xs) h = (h.0, All-map P f xs h.1)

module _ (P : String → Type 0) where
  pub All-add_new : (k : String) (ids : List String) → P k → All P ids → All P (add_new k ids)
  unfolding add_new
  All-add_new k ids p h = elim (Bool-cases (is_in k ids)) [
    | inl e ↦ rw e h
    | inr e ↦ rw e (All-append P ids (k ∷ []) h (p, tt))
  ]

  All-add_all_new : (ks ids : List String) → All P ks → All P ids → All P (add_all_new ks ids)
  unfolding add_all_new
  All-add_all_new [] ids p h = h
  All-add_all_new (k ∷ ks) ids p h =
      All-add_all_new ks (add_new k ids) p.1 (All-add_new k ids p.0 h)

  pub All-first_met :
      (paths : List (List String)) (ids : List String)
      → All (All P) paths
      → All P ids
      → All P (first_met paths ids)
  unfolding first_met
  All-first_met [] ids p h = h
  All-first_met (path ∷ paths) ids p h =
      All-first_met paths (add_all_new path ids) p.1 (All-add_all_new path ids p.0 h)

  -- Both ends of the relationship satisfy the predicate.
  abbrev pub Ends : Relationship → Type 0
  Ends r = P r.source_entity_id × P r.target_entity_id

  Ends-other : (r : Relationship) (id : String) → Ends r → P (other_endpoint r id)
  unfolding other_endpoint
  Ends-other r id h = elim (Bool-cases (r.source_entity_id == id)) [
    | inl e ↦ rw e h.1
    | inr e ↦ rw e h.0
  ]

  pub All-neighbor_ids :
      (id : String) (rs : List Relationship) (ids : List String)
      → All Ends rs
      → All P ids
      → All P (neighbor_ids id rs ids)
  unfolding neighbor_ids
  All-neighbor_ids id [] ids e h = h
  All-neighbor_ids id (r ∷ rs) ids e h =
      All-neighbor_ids id rs _ e.1 (All-add_new (other_endpoint r id) ids (Ends-other r id e.0) h)

  pub All-endpoint_ids :
      (rs : List Relationship) (ids : List String)
      → All Ends rs
      → All P ids
      → All P (endpoint_ids rs ids)
  unfolding endpoint_ids
  All-endpoint_ids [] ids e h = h
  All-endpoint_ids (r ∷ rs) ids e h =
      All-endpoint_ids rs _ e.1
        (All-add_new r.target_entity_id _ e.0.1 (All-add_new r.source_entity_id ids e.0.0 h))

  All-discover :
      (visited : List String) (k : String) (ids : List String)
      → P k
      → All P ids
      → All P (discover visited k ids)
  unfolding discover
  All-discover visited k ids p h = elim (Bool-cases (is_in k visited || is_in k ids)) [
    | inl e ↦ rw e h
    | inr e ↦ rw e (All-append P ids (k ∷ []) h (p, tt))
  ]

  All-discover_all :
      (visited : List String) (rs : List Relationship) (ids : List String)
      → All Ends rs
      → All P ids
      → All P (discover_all visited rs ids)
  unfolding discover_all
  All-discover_all visited [] ids e h = h
  All-discover_all visited (r ∷ rs) ids e h = All-discover_all visited rs _ e.1 (
      All-discover visited r.target_entity_id _ e.0.1
        (All-discover visited r.source_entity_id ids e.0.0 h))

  module _ (type : Option String) (rs : List Relationship) (ends : All Ends rs) where
    All-new_ids : (visited frontier : List String) → All P (new_ids type rs visited frontier)
    unfolding new_ids
    All-new_ids visited frontier =
        All-discover_all visited (select _ rs) [] (All-select Ends _ rs ends) tt

    All-bfs_loop :
        (n : ℕ) (visited frontier : List String)
        → All P visited
        → All P (bfs_loop type rs n visited frontier)
    unfolding bfs_loop
    All-bfs_loop zero visited frontier h = h
    All-bfs_loop (suc n) visited frontier h =
        let found = new_ids type rs visited frontier in
        let wider = All-append P visited found h (All-new_ids visited frontier) in
        elim (Bool-cases (is_nil found)) [
          | inl e ↦ rw e wider
          | inr e ↦ rw e (All-bfs_loop n (visited ++ found) found wider)
        ]

    pub All-bfs_reachable : (root : String) (n : ℕ) → P root → All P (bfs_reachable type rs root n)
    unfolding bfs_reachable
    All-bfs_reachable root n p = All-bfs_loop n (root ∷ []) (root ∷ []) (p, tt)

  module _ (R : String → Type 0) (rs : List Relationship) (target : String) where
    -- What a relationship gives to a path.
    abbrev pub Steps : Relationship → Type 0
    Steps r = Ends r × R r.id

    abbrev pub OnPath : PathIds → Type 0
    OnPath p = All P p.0 × All R p.1

    All-dfs :
        (n : ℕ) (current : String) (ids rids visited : List String)
        → All Steps rs
        → All P ids
        → All R rids
        → All OnPath (dfs rs target n current ids rids visited)
    unfolding dfs relationships_touching
    All-dfs zero current ids rids visited h p q = tt
    All-dfs (suc n) current ids rids visited h p q =
        All-flat_map OnPath _ Steps
          (λ r s.
            let o = other_endpoint r current in
            let p' = All-append P ids (o ∷ []) p (Ends-other r current s.0, tt) in
            let q' = All-append R rids (r.id ∷ []) q (s.1, tt) in
            elim (Bool-cases (is_in o visited)) [
              | inl e ↦ rw e tt
              | inr e ↦ elim (Bool-cases (o == target)) [
                | inl t ↦ rw (e, t) ((p', q'), tt)
                | inr t ↦ rw (e, t) (All-dfs n o _ _ (o ∷ visited) h p' q')
              ]
            ])
          (relationships_touching current none rs) (All-select Steps _ rs h)

    pub All-enumerate_simple_paths :
        (source : String) (n : ℕ)
        → All Steps rs
        → P source
        → All OnPath (enumerate_simple_paths rs target source n)
    unfolding enumerate_simple_paths
    All-enumerate_simple_paths source n h p =
        All-dfs n source (source ∷ []) [] (source ∷ []) h (p, tt) tt

relationship_lookup_keeps :
    (k : String) (rs : List Relationship) (d : Dict String Relationship)
    → contains k d ≡ true
    → contains k (relationship_lookup rs d) ≡ true
unfolding relationship_lookup
relationship_lookup_keeps k [] d h = h
relationship_lookup_keeps k (r ∷ rs) d h =
    relationship_lookup_keeps k rs (insert r.id r d) (ground (arith, lookup-insert r.id k r d))

-- Each relationship is found in the lookup under its id.
pub All-relationship_lookup :
    (rs : List Relationship) (d : Dict String Relationship)
    → All (λ r. contains r.id (relationship_lookup rs d) ≡ true) rs
unfolding relationship_lookup
All-relationship_lookup [] d = tt
All-relationship_lookup (r ∷ rs) d = (
  relationship_lookup_keeps r.id rs (insert r.id r d)
      (ground (arith, lookup-insert r.id r.id r d, eq_iff r.id r.id)),
  All-relationship_lookup rs (insert r.id r d),
)
