-- ===== src/Sales/WorkQueue/Order.antt =====
-- The order of pending_items of argus/modules/sales/work_queue/work_queue.py.
use mathlib.Core.List.{Perm}
use argus_os.Prelude.{
  ℕ, ◌≤◌, Bool, true, false, ◌≡◌, refl, Option, none, some, List, ok, arith, eqb,
}
use argus_os.Prelude.Lists.{select, select_agree, All-always}
use argus_os.Prelude.Sort.{sort, sort-perm, sort-Ordered, sort_stable, Ordered, IsOrder, alike}
use argus_os.Prelude.Dict.{values}
use argus_os.Sales.WorkQueue.{
  WorkItem, WorkItemType, WorkItemStatus, WorkQueue, is_open, has_open_status, goes_before,
  order_work_items, pending_items,
}

-- PENDING and IN_PROGRESS.
abbrev pub unfinished : WorkItem → Bool
unfinished item = elim item.status [
  | WorkItemStatus.pending ↦ true
  | WorkItemStatus.in_progress ↦ true
  | WorkItemStatus.completed ↦ false
  | WorkItemStatus.skipped ↦ false
]

-- The first may stand before the second, by their due dates and the times of their creation.
abbrev pub Before : (due due' : Option ℕ) (created created' : ℕ) → Type 0
Before (some s) (some t) c d = s ≤ t
Before (some s) none c d = Unit
Before none (some t) c d = ⊥
Before none none c d = c ≤ d

abbrev pub Precedes : WorkItem → WorkItem → Type 0
Precedes a b = Before a.due_date b.due_date a.created_at b.created_at

-- An item with this due date or, for none, without one and with this time of creation.
abbrev pub is_ranked : (due due' : Option ℕ) (created created' : ℕ) → Bool
is_ranked (some s) (some t) c d = eqb s t
is_ranked (some s) none c d = false
is_ranked none (some t) c d = false
is_ranked none none c d = eqb c d

abbrev pub ranked : (due : Option ℕ) (created : ℕ) → WorkItem → Bool
ranked due created item = is_ranked due item.due_date created item.created_at

goes_before-IsOrder : IsOrder goes_before
unfolding goes_before
goes_before-IsOrder = record { total = λ x y h. ground arith; trans = λ x y z h k. ground arith }

goes_before-Precedes : (a b : WorkItem) → goes_before a b ≡ true → Precedes a b
unfolding goes_before
goes_before-Precedes a b h = ground arith

-- Some item with a due date and a time of creation.
abbrev sample : Option ℕ → ℕ → WorkItem
sample due created = record {
  work_item_id = "";
  lead_id = "";
  work_type = WorkItemType.other;
  status = WorkItemStatus.pending;
  due_date = due;
  completed_at = none;
  notes = "";
  created_at = created;
}

alike-ranked :
    (due : Option ℕ) (created : ℕ) (item : WorkItem)
    → alike goes_before (sample due created) item ≡ ranked due created item
unfolding goes_before
alike-ranked due created item = ground arith

has_open_status-unfinished : (item : WorkItem) → has_open_status item ≡ unfinished item
unfolding has_open_status is_open
has_open_status-unfinished item = ground arith

-- `pending_items` changes nothing and answers the items that are PENDING or IN_PROGRESS, each once:
-- first those with a due date, the earliest first, then the others, the oldest first; items with
-- the same due date, or without one and created at the same time, keep the order in which they are
-- held.
pub pending_items_lem :
    (q : WorkQueue)
    → (ps : List WorkItem) × ((pending_items q ≡ (ok ps, q))
        × (Perm ps (select unfinished (values q.items))
            × (Ordered Precedes ps
                × ((due : Option ℕ) (created : ℕ)
                    → select (ranked due created) ps
                      ≡ select (ranked due created) (select unfinished (values q.items))))))
unfolding pending_items order_work_items
pending_items_lem q =
    let opened : List WorkItem = select unfinished (values q.items) in
    let same : select has_open_status (values q.items) ≡ opened =
      select_agree has_open_status unfinished (values q.items)
        (All-always _ (values q.items) has_open_status-unfinished) in
    let ranks = λ (due : Option ℕ) (created : ℕ) (items : List WorkItem).
      select_agree (alike goes_before (sample due created)) (ranked due created) items
        (All-always _ items (alike-ranked due created)) in
    (
      sort goes_before opened,
      (
        rw same refl,
        (
          sort-perm goes_before opened,
          (
            sort-Ordered goes_before goes_before-IsOrder (λ x. Unit) Precedes
                (λ x y p r h. goes_before-Precedes x y h) opened (All-always _ opened (λ x. tt)),
            λ due created.
                rw
                  (
                    ← ranks due created (sort goes_before opened),
                    ← ranks due created opened,
                    sort_stable goes_before goes_before-IsOrder (sample due created) opened,
                  )
                  refl,
          ),
        ),
      ),
    )
