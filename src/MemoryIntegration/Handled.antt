-- ===== src/MemoryIntegration/Handled.antt =====
-- argus/memory_integration/integration.py over the memory service and the knowledge graph: which
-- errors its calls end with.
use argus_os.Prelude.{
  ℕ, String, Bool, ◌≡◌, refl, ap, ◌∙◌, true, false, some, List, [], ◌∷◌, Result, ok, err, arith,
  ◌⊎◌, inl, inr, pure, ◌>>=◌, Result-cases, is_empty, string_eq, Bool-cases, Option-cases,
}
use argus_os.Prelude.Dict.{lookup, erase, contains}
use argus_os.Lifecycle.{LifecycleState, same_state, same_state_eq}
use argus_os.Memory.{MemoryRecord, live_record, get, list_live}
use argus_os.Graph
use argus_os.Graph.Integrity.{IsConsistent, Call, run, run-IsConsistent, call}
use argus_os.MemoryIntegration.Mapper.{entity_id}
use argus_os.MemoryIntegration.{
  MemoryIntegration, IntegrationError, invalid_state, invalid_memory_record,
  memory_not_synchronized, memory_mapping, graph_error, Method, require_memory_record,
  synchronize_memory, pass_not_found, remove_memory, is_integration_error, synchronize_records,
  synchronize_all, reset, publish,
}
use argus_os.MemoryIntegration.Replaced.{entity_id-not_empty}
use argus_os.MemoryIntegration.Bridged.{synchronize_memory-Synchronized}

-- The graph is consistent, and no failure is noted.
abbrev pub IsBridged : MemoryIntegration → Type 0
IsBridged m = IsConsistent m.graph × (m.failed ≡ [])

-- The errors of a call that is refused at once.
abbrev pub is_refusal : IntegrationError → Bool
is_refusal memory_mapping = false
is_refusal (graph_error e) = false
is_refusal _ = true

abbrev pub Answers : {A : Type 0} → Result IntegrationError A → Type 0
Answers (ok a) = Unit
Answers (err e) = is_refusal e ≡ true

abbrev pub Handled : {A : Type 0} → Method A → MemoryIntegration → Type 0
Handled f m = Answers (f m).0 × IsBridged (f m).1

refusal-is_integration_error :
    (e : IntegrationError) → is_refusal e ≡ true → is_integration_error e ≡ true
unfolding is_integration_error
refusal-is_integration_error memory_mapping h = cc
refusal-is_integration_error (graph_error e) h = cc
refusal-is_integration_error _ h = refl

-- `synchronize_memory` is refused at once, or finds a record.
synchronize_gate :
    (now : ℕ) (new_id : ℕ → String) (key : String) (m : MemoryIntegration)
    → ((e : IntegrationError) × ((synchronize_memory now new_id key m ≡ (err e, m))
          × (is_refusal e ≡ true)))
      ⊎ ((r : MemoryRecord) × ((m.state ≡ LifecycleState.running)
            × ((is_empty key ≡ false)
                × ((live_record now key m.memory.index ≡ some r) × (is_empty r.key ≡ false)))))
unfolding synchronize_memory require_memory_record get
synchronize_gate now new_id key m = elim (Bool-cases (same_state m.state LifecycleState.running)) [
  | inr off ↦ inl (invalid_state, (ground arith, refl))
  | inl on ↦ elim (Bool-cases (is_empty key)) [
    | inl blank ↦ inl (invalid_memory_record, (ground arith, refl))
    | inr given ↦ elim (Option-cases (live_record now key m.memory.index)) [
      | inl gone ↦ inl (invalid_memory_record, (ground arith, refl))
      | inr (r, live) ↦ elim (Bool-cases (is_empty r.key)) [
        | inl unnamed ↦ inl (invalid_memory_record, (ground arith, refl))
        | inr named ↦ inr (r, (same_state_eq m.state on, (given, (live, named))))
      ]
    ]
  ]
]

erase-none : (k : String) → erase {V = Graph.GraphError} k [] ≡ []
unfolding erase
erase-none k = refl

pub synchronize_memory-Handled :
    (now : ℕ) (new_id : ℕ → String) (key : String) (m : MemoryIntegration)
    → IsBridged m
    → Handled (synchronize_memory now new_id key) m
synchronize_memory-Handled now new_id key m (c, f) = elim (synchronize_gate now new_id key m) [
  | inl (e, (p, h)) ↦ rw p (h, (c, f))
  | inr (r, (on, (given, (live, named)))) ↦
      let s = synchronize_memory-Synchronized now new_id key m r c on given live named in
      (ground (arith, s.0), (s.1, s.4 ∙ ap (erase key) f ∙ erase-none key))
]

-- Under a non-empty id the graph removes the entity or does not know it.
remove_entity-result :
    (k : String) (g : Graph.KnowledgeGraph)
    → is_empty k ≡ false
    → ((Graph.remove_entity k g).0 ≡ ok tt)
      ⊎ ((Graph.remove_entity k g).0 ≡ err Graph.entity_not_found)
unfolding Graph.remove_entity Graph.require_entity
remove_entity-result k g n = elim (Option-cases (lookup k g.entities)) [
  | inl gone ↦ inr (ground (arith, n, gone))
  | inr (e, found) ↦ inl (ground (arith, n, found))
]

-- `remove_memory` is refused at once, or removes the entity and clears the bookkeeping.
remove_gate :
    (key : String) (m : MemoryIntegration)
    → ((e : IntegrationError) × ((remove_memory key m ≡ (err e, m)) × (is_refusal e ≡ true)))
      ⊎ (((remove_memory key m).0 ≡ ok tt)
          × (((remove_memory key m).1.graph ≡ (Graph.remove_entity (entity_id key) m.graph).1)
              × ((remove_memory key m).1.failed ≡ erase key m.failed)))
unfolding remove_memory pass_not_found publish
remove_gate key m = elim (Bool-cases (same_state m.state LifecycleState.running)) [
  | inr off ↦ inl (invalid_state, (ground arith, refl))
  | inl on ↦ elim (Bool-cases (is_empty key)) [
    | inl blank ↦ inl (invalid_memory_record, (ground arith, refl))
    | inr given ↦ elim (Bool-cases (contains key m.synchronized)) [
      | inr unknown ↦ inl (memory_not_synchronized, (ground arith, refl))
      | inl known ↦ elim (remove_entity-result (entity_id key) m.graph (entity_id-not_empty key)) [
        | inl p ↦ inr (ground (arith, on, given, known, p))
        | inr p ↦ inr (ground (arith, on, given, known, p))
      ]
    ]
  ]
]

pub remove_memory-Handled :
    (key : String) (m : MemoryIntegration) → IsBridged m → Handled (remove_memory key) m
unfolding run call
remove_memory-Handled key m (c, f) = elim (remove_gate key m) [
  | inl (e, (p, h)) ↦ rw p (h, (c, f))
  | inr (p, (graph, cleared)) ↦ (
    ground (arith, p),
    (
      rw graph (run-IsConsistent (Call.remove_entity (entity_id key) ∷ []) m.graph c),
      cleared ∙ ap (erase key) f ∙ erase-none key,
    ),
  )
]

pub reset-Handled : (m : MemoryIntegration) → IsBridged m → Handled reset m
unfolding reset
reset-Handled m (c, f) = (tt, (c, refl))

module _ (clock : String → ℕ) (new_id : String → ℕ → String) where
  -- The call for one record, and the integration after it.
  abbrev one : MemoryRecord → MemoryIntegration → Result IntegrationError String × MemoryIntegration
  one r m = synchronize_memory (clock r.key) (new_id r.key) r.key m

  records-ok :
      (r : MemoryRecord) (rs : List MemoryRecord) (m : MemoryIntegration) (id : String)
      → (one r m).0 ≡ ok id
      → synchronize_records clock new_id (r ∷ rs) m
        ≡ (synchronize_records clock new_id rs >>= λ keys. pure (r.key ∷ keys)) (one r m).1
  unfolding synchronize_records
  records-ok r rs m id p = ground (arith, p)

  records-err :
      (r : MemoryRecord) (rs : List MemoryRecord) (m : MemoryIntegration) (e : IntegrationError)
      → (one r m).0 ≡ err e
      → is_integration_error e ≡ true
      → synchronize_records clock new_id (r ∷ rs) m
        ≡ synchronize_records clock new_id rs (one r m).1
  unfolding synchronize_records
  records-err r rs m e p h = ground (arith, p, h)

  records-none : (m : MemoryIntegration) → synchronize_records clock new_id [] m ≡ (ok [], m)
  unfolding synchronize_records
  records-none m = refl

  pure-ok :
      (f : Method (List String)) (k : String) (m : MemoryIntegration) (keys : List String)
      → (f m).0 ≡ ok keys
      → (f >>= λ keys. pure (k ∷ keys)) m ≡ (ok (k ∷ keys), (f m).1)
  pure-ok f k m keys p = ground (arith, p)

  pure-err :
      (f : Method (List String)) (k : String) (m : MemoryIntegration) (e : IntegrationError)
      → (f m).0 ≡ err e
      → (f >>= λ keys. pure (k ∷ keys)) m ≡ (err e, (f m).1)
  pure-err f k m e p = ground (arith, p)

  Handled-pure :
      (f : Method (List String)) (k : String) (m : MemoryIntegration)
      → Handled f m
      → Handled (f >>= λ keys. pure (k ∷ keys)) m
  Handled-pure f k m (a, b) = elim (Result-cases (f m).0) [
    | inl (keys, p) ↦ rw (pure-ok f k m keys p) (tt, b)
    | inr (e, p) ↦ rw (pure-err f k m e p) (ground (arith, p, a), b)
  ]

  refusal-of :
      (e : IntegrationError) (x : Result IntegrationError String)
      → Answers x
      → x ≡ err e
      → is_refusal e ≡ true
  refusal-of e x a p = rw p at a

  synchronize_records-Handled :
      (rs : List MemoryRecord) (m : MemoryIntegration)
      → IsBridged m
      → Handled (synchronize_records clock new_id rs) m
  synchronize_records-Handled [] m h = rw (records-none m) (tt, h)
  synchronize_records-Handled (r ∷ rs) m h =
      let (a, b) = synchronize_memory-Handled (clock r.key) (new_id r.key) r.key m h in
      let rest = synchronize_records-Handled rs (one r m).1 b in
      elim (Result-cases (one r m).0) [
        | inl (id, p) ↦
            rw (records-ok r rs m id p)
              (Handled-pure (synchronize_records clock new_id rs) r.key (one r m).1 rest)
        | inr (e, p) ↦
            rw
              (records-err r rs m e p
                (refusal-is_integration_error e (refusal-of e (one r m).0 a p)))
              rest
      ]

  all-running :
      (now : ℕ) (m : MemoryIntegration)
      → same_state m.state LifecycleState.running ≡ true
      → synchronize_all clock new_id now m
        ≡ synchronize_records clock new_id (list_live now m.memory) m
  unfolding synchronize_all
  all-running now m on = ground (arith, on)

  all-refused :
      (now : ℕ) (m : MemoryIntegration)
      → same_state m.state LifecycleState.running ≡ false
      → synchronize_all clock new_id now m ≡ (err invalid_state, m)
  unfolding synchronize_all
  all-refused now m off = ground (arith, off)

  pub synchronize_all-Handled :
      (now : ℕ) (m : MemoryIntegration) → IsBridged m → Handled (synchronize_all clock new_id now) m
  synchronize_all-Handled now m h = elim (Bool-cases (same_state m.state LifecycleState.running)) [
    | inr off ↦ rw (all-refused now m off) (refl, h)
    | inl on ↦ rw (all-running now m on) (synchronize_records-Handled (list_live now m.memory) m h)
  ]
