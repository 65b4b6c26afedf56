-- ===== src/Reasoning/Search.antt =====
-- The recursion of `_enumerate_simple_paths` of argus/reasoning/engine.py, against lists of
-- relationships that are followed by the code's own `other_endpoint`.
use mathlib.Core.List.{append_assoc}
use argus_os.Prelude.{
  ℕ, zero, suc, ◌≤◌, String, Bool, true, false, ◌≡◌, refl, sym, ap, ◌∙◌, ◌≢◌, none, List, [], ◌∷◌,
  ◌++◌, map, arith, ◌⊎◌, inl, inr, ◌↔◌, ◌&&◌, string_eq, eq_iff, ◌==◌, Bool-cases,
}
use argus_os.Prelude.Lists.{length, is_in, All, NoDup, select}
use argus_os.Graph.{Relationship}
use argus_os.Reasoning.{
  PathIds, is_at, has_type, relationships_touching, other_endpoint, flat_map, dfs,
  enumerate_simple_paths,
}

-- The element stands in the list.
abbrev pub In : {A : Type 0} → A → List A → Type 0
In a [] = ⊥
In a (x ∷ xs) = (x ≡ a) ⊎ In a xs

-- The entities that a list of relationships leads through, from one on.
abbrev pub nodes : String → List Relationship → List String
nodes a [] = []
nodes a (r ∷ es) = other_endpoint r a ∷ nodes (other_endpoint r a) es

-- Where it ends.
abbrev pub end_of : String → List Relationship → String
end_of a [] = a
end_of a (r ∷ es) = end_of (other_endpoint r a) es

-- Each relationship is one of the graph's and starts where the one before ends.
abbrev pub Connects : List Relationship → String → List Relationship → Type 0
Connects rs a [] = Unit
Connects rs a (r ∷ es) = In r rs × (is_at a r ≡ true) × Connects rs (other_endpoint r a) es

-- A path of at most `n` relationships that ends at the target and visits no entity twice, nor any
-- that was visited before.
abbrev pub IsSimple :
    List Relationship → String → ℕ → String → List String → List Relationship → Type 0
IsSimple rs target n a visited es =
    Connects rs a es
    × (length es ≤ n)
    × NoDup (nodes a es)
    × All (λ k. is_in k visited ≡ false) (nodes a es)
    × (end_of a es ≡ target)

abbrev pub relationship_id : Relationship → String
relationship_id r = r.id

-- The ids of a path, after those of the way to its start.
abbrev pub ids_of : List String → List String → String → List Relationship → PathIds
ids_of ids rids a es = (ids ++ nodes a es, rids ++ map relationship_id es)

In-append : {B : Type 0} (b : B) (xs ys : List B) → In b (xs ++ ys) ↔ (In b xs ⊎ In b ys)
In-append b [] ys = (λ h. inr h, λ h. ground arith)
In-append b (x ∷ xs) ys =
    (λ h. ground (arith, In-append b xs ys), λ h. ground (arith, In-append b xs ys))

module _ {A B : Type 0} (f : A → List B) where
  In-flat_map : (b : B) (xs : List A) → In b (flat_map f xs) → (a : A) × (In a xs × In b (f a))
  unfolding flat_map
  In-flat_map b [] h = absurd h
  In-flat_map b (x ∷ xs) h = elim ((In-append b (f x) (flat_map f xs)).0 h) [
    | inl here ↦ (x, (inl refl, here))
    | inr rest ↦ let (a, (m, i)) = In-flat_map b xs rest in (a, (inr m, i))
  ]

  flat_map-In : (b : B) (a : A) (xs : List A) → In a xs → In b (f a) → In b (flat_map f xs)
  unfolding flat_map
  flat_map-In b a [] m h = absurd m
  flat_map-In b a (x ∷ xs) (inl e) h = (In-append b (f x) (flat_map f xs)).1 (inl (rw e h))
  flat_map-In b a (x ∷ xs) (inr m) h =
      (In-append b (f x) (flat_map f xs)).1 (inr (flat_map-In b a xs m h))

pub In-select :
    {A : Type 0} (p : A → Bool) (a : A) (xs : List A)
    → In a (select p xs) ↔ (In a xs × (p a ≡ true))
unfolding select
In-select p a [] = (λ h. absurd h, λ h. absurd h.0)
In-select {A} p a (x ∷ xs) = ground (arith, In-select p a xs, λ (q : x ≡ a). ap p q)

other-is_at :
    (a : String) (rs : List Relationship) (r : Relationship)
    → In r (relationships_touching a none rs) ↔ (In r rs × (is_at a r ≡ true))
unfolding relationships_touching has_type
other-is_at a rs r =
    let h = In-select (λ (r : Relationship). is_at a r && true) r rs in
    (λ m. ground (arith, h.0 m), λ m. h.1 (ground arith))

pub not_in_nil : (o : String) → is_in o [] ≡ false
unfolding is_in
not_in_nil o = refl

pub All-unvisited :
    (o : String) (visited ks : List String)
    → All (λ k. is_in k (o ∷ visited) ≡ false) ks
    → (is_in o ks ≡ false) × All (λ k. is_in k visited ≡ false) ks
unfolding is_in
All-unvisited o visited [] h = (refl, tt)
All-unvisited o visited (k ∷ ks) h =
    ground (arith, All-unvisited o visited ks h.1, eq_iff o k, eq_iff k o)

pub unvisited-All :
    (o : String) (visited ks : List String)
    → is_in o ks ≡ false
    → All (λ k. is_in k visited ≡ false) ks
    → All (λ k. is_in k (o ∷ visited) ≡ false) ks
unfolding is_in
unvisited-All o visited [] n h = tt
unvisited-All o visited (k ∷ ks) n h =
    ground (arith, unvisited-All o visited ks, h.1, eq_iff o k, eq_iff k o)

ids_of-cons :
    (ids rids : List String) (a : String) (r : Relationship) (es : List Relationship)
    → ids_of (ids ++ other_endpoint r a ∷ []) (rids ++ r.id ∷ []) (other_endpoint r a) es
      ≡ ids_of ids rids a (r ∷ es)
ids_of-cons ids rids a r es = cc (
  append_assoc ids (other_endpoint r a ∷ []) (nodes (other_endpoint r a) es),
  append_assoc rids (r.id ∷ []) (map relationship_id es),
)

module _ (rs : List Relationship) (target : String) where
  -- Every path that is found is a simple one.
  dfs-IsSimple :
      (n : ℕ) (a : String) (ids rids visited : List String) (p : PathIds)
      → In p (dfs rs target n a ids rids visited)
      → (es : List Relationship) × (IsSimple rs target n a visited es × (ids_of ids rids a es ≡ p))
  unfolding dfs
  dfs-IsSimple zero a ids rids visited p h = absurd h
  dfs-IsSimple (suc n) a ids rids visited p h =
      let (r, (m, i)) = In-flat_map _ p (relationships_touching a none rs) h in
      let (known, at) = (other-is_at a rs r).0 m in
      let o = other_endpoint r a in
      elim (Bool-cases (is_in o visited)) [
        | inl e ↦ absurd (rw e at i)
        | inr e ↦ elim (Bool-cases (o == target)) [
          | inl t ↦ (
            r ∷ [],
            (
              ((known, at, tt), omega arith, (not_in_nil o, tt), (e, tt), (eq_iff o target).0 t),
              elim (rw (e, t) at i) [ inl q ↦ q | inr nothing ↦ absurd nothing ],
            ),
          )
          | inr t ↦
              let (es, (s, q)) =
                dfs-IsSimple n o (ids ++ o ∷ []) (rids ++ r.id ∷ []) (o ∷ visited) p
                  (rw (e, t) at i) in
              let (fresh, apart) = All-unvisited o visited (nodes o es) s.3 in
              (
                r ∷ es,
                (
                  ((known, at, s.0), omega arith, (fresh, s.2), (e, apart), s.4),
                  sym (ids_of-cons ids rids a r es) ∙ q,
                ),
              )
        ]
      ]

  -- A path that starts at the target and has no entity twice is empty.
  end_of-in :
      (a : String) (r : Relationship) (es : List Relationship)
      → is_in (end_of a (r ∷ es)) (nodes a (r ∷ es)) ≡ true
  unfolding is_in
  end_of-in a r [] = ground (arith, eq_iff (other_endpoint r a) (other_endpoint r a))
  end_of-in a r (s ∷ es) = ground (arith, end_of-in (other_endpoint r a) s es)

  ends_at_start :
      (a : String) (es : List Relationship)
      → end_of a es ≡ a
      → is_in a (nodes a es) ≡ false
      → es ≡ []
  ends_at_start a [] e n = refl
  ends_at_start a (r ∷ es) e n =
      absurd (cc (sym n ∙ ap (λ k. is_in k (nodes a (r ∷ es))) (sym e) ∙ end_of-in a r es))

  -- Every simple path is found.
  IsSimple-dfs :
      (n : ℕ) (a : String) (ids rids visited : List String) (es : List Relationship)
      → a ≢ target
      → IsSimple rs target n a visited es
      → In (ids_of ids rids a es) (dfs rs target n a ids rids visited)
  unfolding dfs
  IsSimple-dfs n a ids rids visited [] start s = absurd (start s.4)
  IsSimple-dfs zero a ids rids visited (r ∷ es) start s = absurd (omega arith)
  IsSimple-dfs (suc n) a ids rids visited (r ∷ es) start s =
      let o = other_endpoint r a in
      let m = (other-is_at a rs r).1 (s.0.0, s.0.1) in
      flat_map-In _ (ids_of ids rids a (r ∷ es)) r (relationships_touching a none rs) m
        (elim (Bool-cases (o == target)) [
          | inl t ↦
              let e : es ≡ [] = ends_at_start o es (s.4 ∙ sym ((eq_iff o target).0 t)) s.2.0 in
              rw (s.3.0, t) (inl (ap (λ l. ids_of ids rids a (r ∷ l)) (sym e)))
          | inr t ↦
              rw (s.3.0, t, ← ids_of-cons ids rids a r es)
                (IsSimple-dfs n o (ids ++ o ∷ []) (rids ++ r.id ∷ []) (o ∷ visited) es
                  (λ e. cc (sym t ∙ (eq_iff o target).1 e))
                  (
                    s.0.2,
                    omega arith,
                    s.2.1,
                    unvisited-All o visited (nodes o es) s.2.0 s.3.1,
                    s.4,
                  ))
        ])

-- The search finds the lists that are simple.
pub enumerate_simple_paths-IsSimple :
    (rs : List Relationship) (source target : String) (max_depth : ℕ) (p : PathIds)
    → source ≢ target
    → In p (enumerate_simple_paths rs target source max_depth) ↔ (
        (es : List Relationship) × (IsSimple rs target max_depth source (source ∷ []) es
          × (ids_of (source ∷ []) [] source es ≡ p)))
unfolding enumerate_simple_paths
enumerate_simple_paths-IsSimple rs source target n p different = (
  dfs-IsSimple rs target n source (source ∷ []) [] (source ∷ []) p,
  λ h.
      let (es, (s, e)) = h in
      rw (← e) (IsSimple-dfs rs target n source (source ∷ []) [] (source ∷ []) es different s),
)
