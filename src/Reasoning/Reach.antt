-- ===== src/Reasoning/Reach.antt =====
-- Which entities `_bfs_reachable` of argus/reasoning/engine.py reaches.
use mathlib.Core.List.{append-nil, append_assoc}
use argus_os.Prelude.{
  ℕ, zero, suc, String, true, false, not, ◌≡◌, refl, sym, ap, ◌∙◌, Option, List, [], ◌∷◌, ◌++◌,
  arith, ◌⊎◌, inl, inr, ◌↔◌, ◌&&◌, string_eq, eq_iff, ◌==◌, Bool-cases,
}
use argus_os.Prelude.Lists.{is_in, NoDup, NoDup-snoc, is_in-append, select}
use argus_os.Graph.{Relationship}
use argus_os.Reasoning.{is_at, has_type, touches_frontier, is_nil, new_ids, bfs_loop, bfs_reachable}
use argus_os.Reasoning.Search.{In, In-select}
use argus_os.Reasoning.Frontier.{some_at, is_in-discover_all, NoDup-discover_all, some_at-In}

module _ (type : Option String) (rs : List Relationship) where
  -- Both entities are ends of one relationship (of the type, if one is given).
  abbrev pub Joined : String → String → Type 0
  Joined a b =
      (r : Relationship) × (In r rs
        × ((has_type type r ≡ true) × ((is_at a r ≡ true) × (is_at b r ≡ true))))

  -- At most `n` relationships lead from the one to the other.
  abbrev pub Within : ℕ → String → String → Type 0
  Within zero a b = a ≡ b
  Within (suc n) a b = (a ≡ b) ⊎ ((c : String) × (Joined a c × Within n c b))

  touches-is_at :
      (frontier : List String) (r : Relationship)
      → touches_frontier type frontier r ≡ true
      → (has_type type r ≡ true) × ((a : String) × ((is_in a frontier ≡ true) × (is_at a r ≡ true)))
  unfolding touches_frontier is_at
  touches-is_at frontier r t = (
    ground arith,
    elim (Bool-cases (is_in r.source_entity_id frontier)) [
      | inl e ↦
          (r.source_entity_id, (e, ground (arith, eq_iff r.source_entity_id r.source_entity_id)))
      | inr e ↦ (
        r.target_entity_id,
        (ground arith, ground (arith, eq_iff r.target_entity_id r.target_entity_id)),
      )
    ],
  )

  is_at-touches :
      (frontier : List String) (a : String) (r : Relationship)
      → has_type type r ≡ true
      → is_in a frontier ≡ true
      → is_at a r ≡ true
      → touches_frontier type frontier r ≡ true
  unfolding touches_frontier is_at
  is_at-touches frontier a r typed f at = elim (Bool-cases (r.source_entity_id == a)) [
    | inl e ↦ rw (typed, (eq_iff r.source_entity_id a).0 e, f) refl
    | inr e ↦ rw (typed, (eq_iff r.target_entity_id a).0 (ground arith), f) (ground arith)
  ]

  is_in-new_ids :
      (visited frontier : List String) (x : String)
      → is_in x (new_ids type rs visited frontier)
        ≡ (some_at x (select (touches_frontier type frontier) rs) && not (is_in x visited))
  unfolding new_ids is_in
  is_in-new_ids visited frontier x =
      ground (arith, is_in-discover_all visited x (select (touches_frontier type frontier) rs) [])

  -- What is new was not visited, and a relationship joins it with the frontier.
  new_ids-Joined :
      (visited frontier : List String) (x : String)
      → is_in x (new_ids type rs visited frontier) ≡ true
      → (is_in x visited ≡ false) × ((a : String) × ((is_in a frontier ≡ true) × Joined a x))
  new_ids-Joined visited frontier x h =
      let near = select (touches_frontier type frontier) rs in
      let h' = sym (is_in-new_ids visited frontier x) ∙ h in
      let (r, (m, at)) = (some_at-In x near).0 (ground arith) in
      let (known, t) = (In-select (touches_frontier type frontier) r rs).0 m in
      let (typed, (a, (f, at'))) = touches-is_at frontier r t in
      (ground arith, (a, (f, (r, (known, (typed, (at', at)))))))

  Joined-new_ids :
      (visited frontier : List String) (a x : String)
      → is_in a frontier ≡ true
      → Joined a x
      → is_in x visited ≡ false
      → is_in x (new_ids type rs visited frontier) ≡ true
  Joined-new_ids visited frontier a x f (r, (m, (typed, (at, at')))) v =
      let near = select (touches_frontier type frontier) rs in
      let t = is_at-touches frontier a r typed f at in
      let some = (some_at-In x near).1 (r, ((In-select _ r rs).1 (m, t), at')) in
      is_in-new_ids visited frontier x ∙ rw (some, v) refl

  NoDup-new_ids : (visited frontier : List String) → NoDup (new_ids type rs visited frontier)
  unfolding new_ids
  NoDup-new_ids visited frontier = NoDup-discover_all visited _ [] tt

  Within-refl : (n : ℕ) (a : String) → Within n a a
  Within-refl zero a = refl
  Within-refl (suc n) a = inl refl

  -- What is found lies in one more step from the frontier.
  found-Within :
      (n : ℕ) (visited frontier : List String) (c x : String)
      → is_in c (new_ids type rs visited frontier) ≡ true
      → Within n c x
      → (a : String) × ((is_in a frontier ≡ true) × Within (suc n) a x)
  found-Within n visited frontier c x h w =
      let (a, (f, j)) = (new_ids-Joined visited frontier c h).1 in (a, (f, inr (c, (j, w))))

  bfs_loop-Within :
      (n : ℕ) (visited frontier : List String) (x : String)
      → is_in x (bfs_loop type rs n visited frontier) ≡ true
      → (is_in x visited ≡ true) ⊎ ((a : String) × ((is_in a frontier ≡ true) × Within n a x))
  unfolding bfs_loop
  bfs_loop-Within zero visited frontier x h = inl h
  bfs_loop-Within (suc n) visited frontier x h =
      let found = new_ids type rs visited frontier in
      let here : is_in x (visited ++ found) ≡ true
          → (is_in x visited ≡ true)
            ⊎ ((a : String) × ((is_in a frontier ≡ true) × Within (suc n) a x)) =
        λ k. elim (Bool-cases (is_in x visited)) [
          | inl e ↦ inl e
          | inr e ↦ inr (
              found-Within n visited frontier x x (rw e at (sym (is_in-append x visited found) ∙ k))
                (Within-refl n x))
        ] in
      elim (Bool-cases (is_nil found)) [
        | inl e ↦ here (rw e at h)
        | inr e ↦ elim (bfs_loop-Within n (visited ++ found) found x (rw e at h)) [
          | inl k ↦ here k
          | inr (c, (m, w)) ↦ inr (found-Within n visited frontier c x m w)
        ]
      ]

  is_in-left : (x : String) (xs ys : List String) → is_in x xs ≡ true → is_in x (xs ++ ys) ≡ true
  is_in-left x xs ys h = is_in-append x xs ys ∙ rw h refl

  -- What was visited stays visited.
  bfs_loop_keeps :
      (n : ℕ) (visited frontier : List String) (x : String)
      → is_in x visited ≡ true
      → is_in x (bfs_loop type rs n visited frontier) ≡ true
  unfolding bfs_loop
  bfs_loop_keeps zero visited frontier x h = h
  bfs_loop_keeps (suc n) visited frontier x h =
      let found = new_ids type rs visited frontier in
      let wider = is_in-left x visited found h in
      elim (Bool-cases (is_nil found)) [
        | inl e ↦ rw e wider
        | inr e ↦ rw e (bfs_loop_keeps n (visited ++ found) found x wider)
      ]

  -- What is joined to a visited entity off the frontier is visited.
  abbrev Explored : (visited frontier : List String) → Type 0
  Explored visited frontier =
      (y z : String)
      → is_in y visited ≡ true
      → Joined y z
      → (is_in y frontier ≡ true) ⊎ (is_in z visited ≡ true)

  -- One round visits all that is joined to what was visited.
  Explored-Joined :
      (visited frontier : List String)
      → Explored visited frontier
      → (y z : String) → is_in y visited ≡ true
      → Joined y z
      → is_in z (visited ++ new_ids type rs visited frontier) ≡ true
  Explored-Joined visited frontier ex y z v j =
      let found = new_ids type rs visited frontier in
      elim (Bool-cases (is_in z visited)) [
        | inl e ↦ is_in-left z visited found e
        | inr e ↦ elim (ex y z v j) [
          | inl f ↦
              is_in-append z visited found ∙ rw (e, Joined-new_ids visited frontier y z f j e) refl
          | inr w ↦ absurd (ground arith)
        ]
      ]

  Explored-round :
      (visited frontier : List String)
      → Explored visited frontier
      → Explored (visited ++ new_ids type rs visited frontier) (new_ids type rs visited frontier)
  Explored-round visited frontier ex y z h j =
      let found = new_ids type rs visited frontier in
      elim (Bool-cases (is_in y visited)) [
        | inl e ↦ inr (Explored-Joined visited frontier ex y z e j)
        | inr e ↦ inl (rw e at (sym (is_in-append y visited found) ∙ h))
      ]

  -- Where nothing new is joined, nothing else is within reach.
  closed-Within :
      (visited : List String)
      → ((y z : String) → is_in y visited ≡ true → Joined y z → is_in z visited ≡ true)
      → (n : ℕ) (a x : String) → is_in a visited ≡ true
      → Within n a x
      → is_in x visited ≡ true
  closed-Within visited closed zero a x h w = ap (λ k. is_in k visited) (sym w) ∙ h
  closed-Within visited closed (suc n) a x h (inl w) = ap (λ k. is_in k visited) (sym w) ∙ h
  closed-Within visited closed (suc n) a x h (inr (c, (j, w))) =
      closed-Within visited closed n c x (closed a c h j) w

  append_nil-closed : (xs ys : List String) → is_nil ys ≡ true → xs ++ ys ≡ xs
  append_nil-closed xs [] h = append-nil xs
  append_nil-closed xs (y ∷ ys) h = cc

  Within-bfs_loop :
      (n : ℕ) (visited frontier : List String) (a x : String)
      → Explored visited frontier
      → is_in a visited ≡ true
      → Within n a x
      → is_in x (bfs_loop type rs n visited frontier) ≡ true
  unfolding bfs_loop
  Within-bfs_loop zero visited frontier a x ex h w = ap (λ k. is_in k visited) (sym w) ∙ h
  Within-bfs_loop (suc n) visited frontier a x ex h (inl w) =
      bfs_loop_keeps (suc n) visited frontier x (ap (λ k. is_in k visited) (sym w) ∙ h)
  Within-bfs_loop (suc n) visited frontier a x ex h (inr (c, (j, w))) =
      let found = new_ids type rs visited frontier in
      let reached = Explored-Joined visited frontier ex in
      elim (Bool-cases (is_nil found)) [
        | inl e ↦
            let same = append_nil-closed visited found e in
            let closed =
              closed-Within visited
                (λ y z k l. ap (λ ks. is_in z ks) (sym same) ∙ reached y z k l) in
            rw e (
              is_in-left x visited found
                (closed n c x (ap (λ ks. is_in c ks) (sym same) ∙ reached a c h j) w))
        | inr e ↦ rw e (
            Within-bfs_loop n (visited ++ found) found c x (Explored-round visited frontier ex)
              (reached a c h j) w)
      ]

  -- A new id is in no list twice.
  NoDup-found :
      (visited frontier ks : List String)
      → NoDup visited
      → NoDup ks
      → ((k : String) → is_in k ks ≡ true → is_in k visited ≡ false)
      → NoDup (visited ++ ks)
  unfolding is_in
  NoDup-found visited frontier [] n m apart = rw (append-nil visited) n
  NoDup-found visited frontier (k ∷ ks) n m apart = rw (← append_assoc visited (k ∷ []) ks) (
      NoDup-found (visited ++ k ∷ []) frontier ks
        (NoDup-snoc k visited (apart k (ground (arith, eq_iff k k))) n) m.1
        (λ j h. elim (Bool-cases (k == j)) [
          | inl e ↦ absurd (cc (m.0, h, ap (λ z. is_in z ks) ((eq_iff k j).0 e)))
          | inr e ↦ ground (arith, is_in-append j visited (k ∷ []), apart j, h)
        ]))

  NoDup-bfs_loop :
      (n : ℕ) (visited frontier : List String)
      → NoDup visited
      → NoDup (bfs_loop type rs n visited frontier)
  unfolding bfs_loop
  NoDup-bfs_loop zero visited frontier u = u
  NoDup-bfs_loop (suc n) visited frontier u =
      let found = new_ids type rs visited frontier in
      let wider =
        NoDup-found visited frontier found u (NoDup-new_ids visited frontier)
          (λ k h. (new_ids-Joined visited frontier k h).0) in
      elim (Bool-cases (is_nil found)) [
        | inl e ↦ rw e wider
        | inr e ↦ rw e (NoDup-bfs_loop n (visited ++ found) found wider)
      ]

-- The search returns no entity twice, and it returns exactly those within `depth` relationships (of
-- the type, if one is given) of the root.
pub bfs_reachable_lem :
    (type : Option String) (rs : List Relationship) (root : String) (depth : ℕ) (x : String)
    → NoDup (bfs_reachable type rs root depth)
      × ((is_in x (bfs_reachable type rs root depth) ≡ true) ↔ Within type rs depth root x)
unfolding bfs_reachable is_in
bfs_reachable_lem type rs root depth x =
    let only = λ (y : String) (h : is_in y (root ∷ []) ≡ true). (eq_iff root y).0 (ground arith) in
    (
      NoDup-bfs_loop type rs depth (root ∷ []) (root ∷ []) (refl, tt),
      (
        λ h. elim (bfs_loop-Within type rs depth (root ∷ []) (root ∷ []) x h) [
          | inl e ↦ rw (only x e) (Within-refl type rs depth x)
          | inr (a, (m, w)) ↦ rw (only a m) w
        ],
        Within-bfs_loop type rs depth (root ∷ []) (root ∷ []) root x (λ y z h j. inl h)
            (ground (arith, eq_iff root root)),
      ),
    )
