-- ===== src/Sales/WorkQueue/Counting.antt =====
-- How many items of argus/modules/sales/work_queue/work_queue.py are open after a transition.
use argus_os.Prelude.{
  ℕ, ◌+◌, String, Bool, true, ◌≡◌, refl, Option, none, some, [], ◌∷◌, arith, string_eq,
  if◌then◌else◌, ◌==◌, Bool-cases, inl, inr, eq_of_some,
}
use argus_os.Prelude.Lists.{length, select}
use argus_os.Prelude.Dict.{Dict, lookup, insert, values}
use argus_os.Sales.WorkQueue.{
  WorkItem, WorkItemStatus, WorkQueue, is_open, has_open_status, changed, transition, publish_item,
}

abbrev pub open_count : Dict String WorkItem → ℕ
open_count d = length (select has_open_status (values d))

abbrev pub one_if : Bool → ℕ
one_if b = if b then 1 else 0

count-cons :
    (j : String) (u : WorkItem) (d : Dict String WorkItem)
    → open_count ((j, u) ∷ d) ≡ one_if (has_open_status u) + open_count d
unfolding select
count-cons j u d = ground arith

count-insert :
    (id : String) (v w : WorkItem) (d : Dict String WorkItem)
    → lookup id d ≡ some v
    → open_count (insert id w d) + one_if (has_open_status v)
      ≡ open_count d + one_if (has_open_status w)
unfolding lookup insert
count-insert id v w [] h = cc
count-insert id v w ((j, u) ∷ d) h = elim (Bool-cases (j == id)) [
  | inl e ↦
      let same : u ≡ v = eq_of_some (ground arith) in
      rw e (rw same (omega (arith, count-cons j w d, count-cons j v d)))
  | inr e ↦ rw e (
      omega (
        arith,
        count-cons j u (insert id w d),
        count-cons j u d,
        count-insert id v w d (ground arith),
      ))
]

publish_item-items :
    (name id : String) (item : WorkItem) (q : WorkQueue)
    → (publish_item name id item q).1.items ≡ q.items
unfolding publish_item
publish_item-items name id item q = ground arith

changed-status :
    (current : WorkItem) (status : WorkItemStatus) (notes : Option String) (completed_at : Option ℕ)
    → (changed current status notes completed_at).status ≡ status
unfolding changed
changed-status current status notes none = refl
changed-status current status notes (some now) = refl

pub transition-items :
    (id : String) (status : WorkItemStatus) (event_name : String) (notes : Option String)
    (completed_at : Option ℕ) (q : WorkQueue) (current : WorkItem)
    → lookup id q.items ≡ some current
    → is_open current.status ≡ true
    → (transition id status event_name notes completed_at q).1.items
      ≡ insert id (changed current status notes completed_at) q.items
unfolding transition
transition-items id status event_name notes completed_at q current found opened =
    let updated = changed current status notes completed_at in
    ground (
      arith,
      publish_item-items event_name id updated (record q { items = insert id updated q.items }),
    )

-- A transition of an open item: one item fewer is open after it, if the new status is closed, and as
-- many as before, if it is not; also where the event is refused because the id is empty.
transition_count :
    (id : String) (status : WorkItemStatus) (event_name : String) (notes : Option String)
    (completed_at : Option ℕ) (q : WorkQueue) (current : WorkItem)
    → lookup id q.items ≡ some current
    → is_open current.status ≡ true
    → open_count (transition id status event_name notes completed_at q).1.items + 1
      ≡ open_count q.items + one_if (is_open status)
unfolding has_open_status
transition_count id status event_name notes completed_at q current found opened =
    let updated = changed current status notes completed_at in
    rw (transition-items id status event_name notes completed_at q current found opened) (
      ground (
        arith,
        count-insert id current updated q.items found,
        changed-status current status notes completed_at,
      ))
