-- ===== src/Reasoning/Paths.antt =====
-- Which paths `_enumerate_simple_paths` of argus/reasoning/engine.py finds.
use argus_os.Prelude.{
  ℕ, suc, ◌≤◌, String, true, ◌≡◌, refl, ap, ◌∙◌, ◌≢◌, List, [], ◌∷◌, map, arith, ◌⊎◌, ◌↔◌,
  string_eq, eq_iff,
}
use argus_os.Prelude.Lists.{length, All-always, NoDup}
use argus_os.Graph.{Relationship}
use argus_os.Reasoning.{PathIds, is_at, other_endpoint, enumerate_simple_paths}
use argus_os.Reasoning.Search.{
  In, nodes, end_of, Connects, relationship_id, All-unvisited, unvisited-All, not_in_nil,
  enumerate_simple_paths-IsSimple,
}

-- The two entities are the two ends of the relationship, in one direction or the other.
abbrev pub Joins : String → Relationship → String → Type 0
Joins a r b =
    ((r.source_entity_id ≡ a) × (r.target_entity_id ≡ b))
    ⊎ ((r.target_entity_id ≡ a) × (r.source_entity_id ≡ b))

-- A walk: each relationship with the entity that it leads to.
abbrev pub Walk : Type 0
Walk = List (Relationship × String)

-- A walk along the relationships from an entity to an entity.
abbrev pub Leads : List Relationship → String → Walk → String → Type 0
Leads rs a [] b = a ≡ b
Leads rs a ((r, c) ∷ w) b = In r rs × Joins a r c × Leads rs c w b

abbrev pub entities : Walk → List String
entities [] = []
entities ((r, c) ∷ w) = c ∷ entities w

abbrev pub relationship_ids : Walk → List String
relationship_ids [] = []
relationship_ids ((r, c) ∷ w) = r.id ∷ relationship_ids w

-- A walk from the source to the target of at most `n` relationships that visits no entity twice.
abbrev pub IsPath : List Relationship → (source target : String) → ℕ → Walk → Type 0
IsPath rs source target n w =
    Leads rs source w target × (length w ≤ n) × NoDup (source ∷ entities w)

is_at-Joins : (a : String) (r : Relationship) → is_at a r ≡ true → Joins a r (other_endpoint r a)
unfolding is_at other_endpoint
is_at-Joins a r h = ground (arith, eq_iff r.source_entity_id a, eq_iff r.target_entity_id a)

Joins-is_at :
    (a : String) (r : Relationship) (b : String)
    → Joins a r b
    → (is_at a r ≡ true) × (other_endpoint r a ≡ b)
unfolding is_at other_endpoint
Joins-is_at a r b h = ground (arith, h, eq_iff r.source_entity_id a, eq_iff r.target_entity_id a)

abbrev walk_of : String → List Relationship → Walk
walk_of a [] = []
walk_of a (r ∷ es) = (r, other_endpoint r a) ∷ walk_of (other_endpoint r a) es

abbrev steps : Walk → List Relationship
steps [] = []
steps ((r, c) ∷ w) = r ∷ steps w

module _ (rs : List Relationship) where
  Connects-Leads :
      (a : String) (es : List Relationship) (b : String)
      → Connects rs a es
      → end_of a es ≡ b
      → Leads rs a (walk_of a es) b
  Connects-Leads a [] b c e = e
  Connects-Leads a (r ∷ es) b c e =
      (c.0, is_at-Joins a r c.1, Connects-Leads (other_endpoint r a) es b c.2 e)

  walk_of-ids :
      (a : String) (es : List Relationship)
      → (entities (walk_of a es) ≡ nodes a es)
        × ((relationship_ids (walk_of a es) ≡ map relationship_id es)
            × (length (walk_of a es) ≡ length es))
  walk_of-ids a [] = (refl, (refl, refl))
  walk_of-ids a (r ∷ es) = ground (arith, walk_of-ids (other_endpoint r a) es)

  Leads-Connects :
      (a : String) (w : Walk) (b : String)
      → Leads rs a w b
      → Connects rs a (steps w)
        × ((end_of a (steps w) ≡ b)
            × ((nodes a (steps w) ≡ entities w)
                × ((map relationship_id (steps w) ≡ relationship_ids w)
                    × (length (steps w) ≡ length w))))
  Leads-Connects a [] b h = (tt, (h, (refl, (refl, refl))))
  Leads-Connects a ((r, c) ∷ w) b h =
      let (at, other) = Joins-is_at a r c h.1 in
      let (connected, (ends, (visits, (ids, size)))) = Leads-Connects c w b h.2 in
      (
        (h.0, at, rw other connected),
        (
          ap (λ k. end_of k (steps w)) other ∙ ends,
          (
            ap (λ k. k ∷ nodes k (steps w)) other ∙ ap (λ ks. c ∷ ks) visits,
            (ap (λ ks. r.id ∷ ks) ids, ap suc size),
          ),
        ),
      )

-- For two different entities: the paths that are found are exactly those of the walks from the one
-- to the other, along relationships of the graph in either direction, of at most `max_depth`
-- relationships, that visit no entity twice; a path is given by the ids of its entities, the source
-- first, and of its relationships, in order.
pub enumerate_simple_paths_lem :
    (rs : List Relationship) (source target : String) (max_depth : ℕ) (p : PathIds)
    → source ≢ target
    → In p (enumerate_simple_paths rs target source max_depth) ↔ (
        (w : Walk) × (IsPath rs source target max_depth w
          × ((source ∷ entities w, relationship_ids w) ≡ p)))
enumerate_simple_paths_lem rs source target n p different =
    let found = enumerate_simple_paths-IsSimple rs source target n p different in
    (
      λ h.
          let (es, (s, e)) = found.0 h in
          let (visits, (ids, size)) = walk_of-ids rs source es in
          (
            walk_of source es,
            (
              (
                Connects-Leads rs source es target s.0 s.4,
                rw size s.1,
                rw visits ((All-unvisited source [] (nodes source es) s.3).0, s.2),
              ),
              rw (visits, ids) e,
            ),
          ),
      λ h.
          let (w, (s, e)) = h in
          let (connected, (ends, (visits, (ids, size)))) = Leads-Connects rs source w target s.0 in
          found.1 (
            steps w,
            (
              (
                connected,
                rw size s.1,
                rw visits s.2.1,
                rw visits (
                    unvisited-All source [] (entities w) s.2.0
                      (All-always _ (entities w) not_in_nil)),
                ends,
              ),
              rw (visits, ids) e,
            ),
          ),
    )
