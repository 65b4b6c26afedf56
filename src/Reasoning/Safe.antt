-- ===== src/Reasoning/Safe.antt =====
-- argus/reasoning/engine.py over argus/knowledge_graph/graph.py: on a consistent graph no request
-- is ended by an error of the graph or a KeyError.
use argus_os.Prelude.{
  ℕ, ◌++◌, String, true, false, ◌≡◌, refl, List, [], ◌∷◌, arith, ◌⊎◌, inl, inr, Result, ok, err,
  ◌||◌, is_empty, string_eq, ◌==◌, eq_iff, Bool-cases, Option-cases, if◌then◌else◌,
}
use argus_os.Prelude.Lists.{All}
use argus_os.Prelude.Dict.{Dict, lookup, contains, values, lookup-insert, lookup-erase}
use argus_os.Prelude.Entries.{Has}
use argus_os.Graph.{Entity, Relationship, KnowledgeGraph}
use argus_os.Graph
use argus_os.Graph.Integrity.{
  IsConsistent, Call, call, run, run-IsConsistent, add_relationship_entities,
}
use argus_os.Reasoning.Engine.{
  ReasoningEngine, Failure, Method, is_reasoning_error, on_graph, require_non_empty,
  require_positive, get_entity, as_target, require_entity, get_entities, add_typed, match_pattern,
  get_relationships,
}
use argus_os.Reasoning.Known.{Ends, All-add_new}

-- The answer satisfies `Q`, or the error is one of the package.
abbrev pub Answers : {A : Type 0} → (A → Type 0) → Result Failure A → Type 0
Answers Q (ok a) = Q a
Answers Q (err e) = is_reasoning_error e ≡ true

-- The method leaves the engine as it is, and answers what satisfies `Q` or raises an error of the
-- package.
abbrev pub Reads : {A : Type 0} → Method A → ReasoningEngine → (A → Type 0) → Type 0
Reads m s Q = ((m s).1 ≡ s) × Answers Q (m s).0

-- What a method that reads gives.
pub Reads-cases :
    {A : Type 0} (m : Method A) (s : ReasoningEngine) (Q : A → Type 0)
    → Reads m s Q
    → ((a : A) × ((m s ≡ (ok a, s)) × Q a))
      ⊎ ((e : Failure) × ((m s ≡ (err e, s)) × (is_reasoning_error e ≡ true)))
Reads-cases {A} m s Q h = go (m s) refl h
  where
    go :
        (x : Result Failure A × ReasoningEngine)
        → m s ≡ x
        → (x.1 ≡ s) × Answers Q x.0
        → ((a : A) × ((m s ≡ (ok a, s)) × Q a))
          ⊎ ((e : Failure) × ((m s ≡ (err e, s)) × (is_reasoning_error e ≡ true)))
    go (ok a, t) e h = inl (a, (cc (e, h.0), h.1))
    go (err f, t) e h = inr (f, (cc (e, h.0), h.1))

All-values :
    {V : Type 0} (P : V → Type 0) (d : Dict String V)
    → ((k : String) (v : V) → Has k v d → P v)
    → All P (values d)
All-values P [] h = tt
All-values P ((k, v) ∷ d) h = (h k v (inl (refl, refl)), All-values P d (λ j w m. h j w (inr m)))

-- Consistent, and no entity is stored under the empty id.
abbrev pub IsSound : KnowledgeGraph → Type 0
IsSound g = IsConsistent g × (contains "" g.entities ≡ false)

module _ (s : ReasoningEngine) where
  abbrev pub Any : {A : Type 0} → A → Type 0
  Any a = Unit

  pub require_non_empty-Reads : (value : String) → Reads (require_non_empty value) s Any
  unfolding require_non_empty is_reasoning_error
  require_non_empty-Reads value = ground arith

  pub require_positive-Reads : (value : ℕ) → Reads (require_positive value) s Any
  unfolding require_positive is_reasoning_error
  require_positive-Reads value = ground arith

  abbrev pub Known : String → Type 0
  Known k = contains k s.graph.entities ≡ true

  module _ (sound : IsSound s.graph) where
    Known-not_empty : (k : String) → Known k → is_empty k ≡ false
    unfolding is_empty
    Known-not_empty k known = ground (arith, eq_iff k "", sound.1)

    pub get_entity-Reads : (k : String) → Known k → Reads (get_entity k) s (λ e. e.id ≡ k)
    unfolding get_entity on_graph Graph.get_entity Graph.require_entity
    get_entity-Reads k known = elim (Option-cases (lookup k s.graph.entities)) [
      | inl gone ↦ absurd (ground arith)
      | inr (e, found) ↦ ground (arith, Known-not_empty k known, sound.0.entity_id k e found)
    ]

    get_entity-found :
        (k : String) → Known k → (e : Entity) × ((get_entity k s ≡ (ok e, s)) × (e.id ≡ k))
    unfolding get_entity on_graph Graph.get_entity Graph.require_entity
    get_entity-found k known = elim (Option-cases (lookup k s.graph.entities)) [
      | inl gone ↦ absurd (ground arith)
      | inr (e, found) ↦
          (e, (ground (arith, Known-not_empty k known, found), sound.0.entity_id k e found))
    ]

    pub require_entity-Reads : (k : String) → Reads (require_entity k) s (λ e. Known k)
    unfolding require_entity require_non_empty get_entity on_graph Graph.get_entity
        Graph.require_entity as_target is_reasoning_error
    require_entity-Reads k = ground arith

    pub get_entities-Reads : (ids : List String) → All Known ids → Reads (get_entities ids) s Any
    unfolding get_entities
    get_entities-Reads [] h = (refl, tt)
    get_entities-Reads (k ∷ ids) h =
        ground (arith, get_entity-Reads k h.0, get_entities-Reads ids h.1)

    -- Every relationship has its ends among the entities.
    pub Ends-values : All (Ends Known) (values s.graph.relationships)
    Ends-values =
        All-values (Ends Known) s.graph.relationships
          (λ k r h. (sound.0.source k r h, sound.0.target k r h))

    All-add_typed :
        (type : String) (e : Entity) (k : String) (ids : List String)
        → Known k
        → e.id ≡ k
        → All Known ids
        → All Known (add_typed type e ids)
    unfolding add_typed
    All-add_typed type e k ids known same h =
        ground (arith, All-add_new Known e.id ids (rw same known) h)

    pub match_pattern-Reads :
        (type : String) (rs matched : List Relationship) (ids : List String)
        → All (Ends Known) rs
        → All Known ids
        → Reads (match_pattern type rs matched ids) s (λ found. All Known found.1)
    unfolding match_pattern
    match_pattern-Reads type [] matched ids h k = (refl, k)
    match_pattern-Reads type (r ∷ rs) matched ids h k =
        let (a, (p, i)) = get_entity-found r.source_entity_id h.0.0 in
        let (b, (q, j)) = get_entity-found r.target_entity_id h.0.1 in
        let ids' = add_typed type b (add_typed type a ids) in
        let known =
          All-add_typed type b r.target_entity_id (add_typed type a ids) h.0.1 j
            (All-add_typed type a r.source_entity_id ids h.0.0 i k) in
        let touched = a.entity_type == type || b.entity_type == type in
        let matched' = if touched then matched ++ r ∷ [] else matched in
        ground (arith, p, q, match_pattern-Reads type rs matched' ids' h.1 known)

    pub get_relationships-Reads :
        (ids : List String) (lookups : Dict String Relationship)
        → All (λ id. contains id lookups ≡ true) ids
        → Reads (get_relationships ids lookups) s Any
    unfolding get_relationships
    get_relationships-Reads [] lookups h = (refl, tt)
    get_relationships-Reads (id ∷ ids) lookups h =
        ground (arith, get_relationships-Reads ids lookups h.1, h.0)

add_entity_no_empty :
    (e : Entity) (g : KnowledgeGraph)
    → contains "" g.entities ≡ false
    → contains "" (Graph.add_entity e g).1.entities ≡ false
unfolding Graph.add_entity is_empty
add_entity_no_empty e g h = elim (Bool-cases (e.id == "")) [
  | inl empty ↦ rw empty h
  | inr full ↦ ground (arith, lookup-insert e.id "" e g.entities)
]

remove_relationship_entities :
    (id : String) (g : KnowledgeGraph) → (Graph.remove_relationship id g).1.entities ≡ g.entities
unfolding Graph.remove_relationship
remove_relationship_entities id g = ground arith

remove_entity_no_empty :
    (id : String) (g : KnowledgeGraph)
    → contains "" g.entities ≡ false
    → contains "" (Graph.remove_entity id g).1.entities ≡ false
unfolding Graph.remove_entity
remove_entity_no_empty id g h = ground (arith, lookup-erase id "" g.entities)

no_empty_id :
    (c : Call) (g : KnowledgeGraph)
    → contains "" g.entities ≡ false
    → contains "" (call c g).entities ≡ false
unfolding call
no_empty_id (Call.add_entity e) g h = add_entity_no_empty e g h
no_empty_id (Call.remove_entity id) g h = remove_entity_no_empty id g h
no_empty_id (Call.add_relationship r) g h = rw (add_relationship_entities r g) h
no_empty_id (Call.remove_relationship id) g h = rw (remove_relationship_entities id g) h

pub run-IsSound : (cs : List Call) (g : KnowledgeGraph) → IsSound g → IsSound (run cs g)
unfolding run
run-IsSound [] g h = h
run-IsSound (c ∷ cs) g h =
    run-IsSound cs (call c g) (run-IsConsistent (c ∷ []) g h.0, no_empty_id c g h.1)
