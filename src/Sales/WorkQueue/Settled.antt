-- ===== src/Sales/WorkQueue/Settled.antt =====
-- Calls of argus/modules/sales/work_queue/work_queue.py in any sequence: what is closed stays so.
use argus_os.Prelude.{
  ℕ, String, true, false, ◌≡◌, ◌≢◌, sym, ap, ◌∙◌, Option, none, some, List, [], ◌∷◌, arith,
  string_eq, eq_iff, ◌==◌, Bool-cases, Option-cases, inl, inr, eq_of_some,
}
use argus_os.Prelude.Dict.{lookup, lookup-insert}
use argus_os.Sales.WorkQueue.{WorkItem, WorkItemStatus, WorkQueue, is_open, changed, transition}
use argus_os.Sales.WorkQueue
use argus_os.Sales.WorkQueue.Counting.{transition-items}

-- A call of one method, as a value.
pub data Call : Type 0 where
  add : WorkItem → Call
  start : (id : String) → Call
  complete : (id : String) (notes : Option String) (now : ℕ) → Call
  skip : (id : String) (notes : Option String) → Call

pub call : Call → WorkQueue → WorkQueue
call (Call.add item) q = (WorkQueue.add item q).1
call (Call.start id) q = (WorkQueue.start id q).1
call (Call.complete id notes now) q = (WorkQueue.complete id notes now q).1
call (Call.skip id notes) q = (WorkQueue.skip id notes q).1

pub run : List Call → WorkQueue → WorkQueue
run [] q = q
run (c ∷ cs) q = run cs (call c q)

-- The call does not add an item under the id.
abbrev pub IsOther : String → Call → Type 0
IsOther id (Call.add item) = item.work_item_id ≢ id
IsOther id _ = Unit

abbrev pub AllOther : String → List Call → Type 0
AllOther id [] = Unit
AllOther id (c ∷ cs) = IsOther id c × AllOther id cs

module _ (id : String) (v : WorkItem) (closed : is_open v.status ≡ false) where
  closed_and_open :
      (k : String) (w : WorkItem) (q : WorkQueue)
      → (k == id) ≡ true
      → lookup id q.items ≡ some v
      → lookup k q.items ≡ some w
      → is_open w.status ≡ true
      → ⊥
  closed_and_open k w q same found h e =
      let k-eq : k ≡ id = (eq_iff k id).0 same in
      let w-eq : w ≡ v = eq_of_some (sym h ∙ ap (λ j. lookup j q.items) k-eq ∙ found) in
      cc (ap (λ (x : WorkItem). is_open x.status) w-eq)

  transition_keeps :
      (k : String) (status : WorkItemStatus) (name : String) (notes : Option String)
      (now : Option ℕ) (q : WorkQueue)
      → lookup id q.items ≡ some v
      → lookup id (transition k status name notes now q).1.items ≡ some v
  unfolding transition
  transition_keeps k status name notes now q found = elim (Option-cases (lookup k q.items)) [
    | inl n ↦ ground arith
    | inr (w, h) ↦ elim (Bool-cases (is_open w.status)) [
      | inr e ↦ ground arith
      | inl e ↦ rw (transition-items k status name notes now q w h e) (elim (Bool-cases (k == id)) [
        | inl same ↦ absurd (closed_and_open k w q same found h e)
        | inr other ↦ ground (arith, lookup-insert k id (changed w status notes now) q.items)
      ])
    ]
  ]

  call_keeps :
      (c : Call) (q : WorkQueue)
      → IsOther id c
      → lookup id q.items ≡ some v
      → lookup id (call c q).items ≡ some v
  unfolding call WorkQueue.add WorkQueue.start WorkQueue.complete WorkQueue.skip
  call_keeps (Call.add item) q other found =
      ground (arith, lookup-insert item.work_item_id id item q.items, eq_iff item.work_item_id id)
  call_keeps (Call.start k) q other found = transition_keeps k _ _ none none q found
  call_keeps (Call.complete k notes now) q other found =
      transition_keeps k _ _ notes (some now) q found
  call_keeps (Call.skip k notes) q other found = transition_keeps k _ _ notes none q found

  -- An item that is COMPLETED or SKIPPED keeps its record through any calls, as long as no item is
  -- added under its id.
  pub run_closed :
      (cs : List Call) (q : WorkQueue)
      → AllOther id cs
      → lookup id q.items ≡ some v
      → lookup id (run cs q).items ≡ some v
  unfolding run
  run_closed [] q other found = found
  run_closed (c ∷ cs) q other found =
      run_closed cs (call c q) other.1 (call_keeps c q other.0 found)
