-- ===== src/Sales/WorkQueue.antt =====
-- argus/modules/sales/work_queue/work_queue.py, ordering.py and the WorkItem of
-- argus/modules/sales/work_items: WorkQueue. Times are aware datetimes, as numbers. Of a work
-- item's metadata only created_at is read and kept.
pub mod Order
pub mod Settled
pub mod Counting
mod Tests
use argus_os.Prelude.{
  ℕ, String, Bool, true, false, not, Option, none, some, List, [], ◌∷◌, Exec, pure, raise, gets,
  modify, guard, or_raise, ◌>>=◌, ◌>>◌, leb, string_eq, ok, err,
}
use argus_os.Prelude.Lists.{select}
use argus_os.Prelude.Sort.{sort}
use argus_os.Prelude.Dict.{Dict, lookup, insert, values}
use argus_os.Events.{Event, text}
use argus_os.Sales.{sales_event}

pub data WorkItemType : Type 0 where
  call email follow_up research other : WorkItemType

pub data WorkItemStatus : Type 0 where
  pending in_progress completed skipped : WorkItemStatus

-- `status in _OPEN_STATUSES`
unfoldable pub is_open : WorkItemStatus → Bool
is_open WorkItemStatus.pending = true
is_open WorkItemStatus.in_progress = true
is_open _ = false

pub record WorkItem : Type 0 where
  pub work_item_id : String
  pub lead_id : String
  pub work_type : WorkItemType
  pub status : WorkItemStatus
  pub due_date : Option ℕ
  pub completed_at : Option ℕ
  pub notes : String
  pub created_at : ℕ

-- `event_bus` says whether there is a bus; the events go to the list.
pub record WorkQueue : Type 0 where
  pub has_bus : Bool
  pub items : Dict String WorkItem
  pub published : List Event

pub data WorkQueueError : Type 0 where
  work_queue_error work_item_not_found value_error : WorkQueueError

abbrev pub Method : Type 0 → Type 0
Method A = Exec WorkQueueError WorkQueue A

-- `_sort_key(a) <= _sort_key(b)`: items with a due date first, by that date, and then the others by
-- their creation.
unfoldable pub goes_before : WorkItem → WorkItem → Bool
goes_before a b = elim a.due_date [
  | some s ↦ elim b.due_date [ some t ↦ leb s t | none ↦ true ]
  | none ↦ elim b.due_date [ some t ↦ false | none ↦ leb a.created_at b.created_at ]
]

unfoldable pub order_work_items : List WorkItem → List WorkItem
order_work_items items = sort goes_before items

unfoldable pub add : WorkItem → Method Unit
add item = modify (λ q. record q { items = insert item.work_item_id item q.items })

all_items : Method (List WorkItem)
all_items = gets (λ q. values q.items)

unfoldable pub has_open_status : WorkItem → Bool
has_open_status item = is_open item.status

unfoldable pub pending_items : Method (List WorkItem)
unfolding order_work_items
pending_items = gets (λ q. order_work_items (select has_open_status (values q.items)))

unfoldable pub or_kept : {A : Type 0} → Option A → A → A
or_kept none a = a
or_kept (some b) a = b

-- `if self._event_bus is not None: publish_sales_event(...)`
unfoldable pub publish_item : (event_name id : String) → WorkItem → Method Unit
publish_item event_name id item q = elim q.has_bus [
  | false ↦ (ok tt, q)
  | true ↦ elim (sales_event event_name "WorkItem" id (("lead_id", text item.lead_id) ∷ [])) [
    | none ↦ (err value_error, q)
    | some event ↦ (ok tt, record q { published = event ∷ q.published })
  ]
]

-- The item that `_transition` stores; `completed_at` is given where the method sets it.
unfoldable pub changed :
    WorkItem → WorkItemStatus → (notes : Option String) (completed_at : Option ℕ) → WorkItem
unfolding or_kept
changed item status notes none = record item { status = status; notes = or_kept notes item.notes }
changed item status notes (some now) = record item {
  status = status;
  notes = or_kept notes item.notes;
  completed_at = some now;
}

unfoldable pub transition :
    (id : String) (status : WorkItemStatus) (event_name : String) (notes : Option String)
    (completed_at : Option ℕ)
    → Method WorkItem
unfolding is_open publish_item
transition id status event_name notes completed_at = do
  found ← gets (λ q. lookup id q.items)
  current ← or_raise found work_item_not_found
  guard (is_open current.status) work_queue_error
  let updated = changed current status notes completed_at
  modify (λ q. record q { items = insert id updated q.items })
  publish_item event_name id updated
  pure updated

unfoldable pub start : String → Method WorkItem
start id = transition id WorkItemStatus.in_progress "WorkItemStarted" none none

unfoldable pub complete : String → (notes : Option String) (now : ℕ) → Method WorkItem
complete id notes now = transition id WorkItemStatus.completed "WorkItemCompleted" notes (some now)

unfoldable pub skip : String → (notes : Option String) → Method WorkItem
skip id notes = transition id WorkItemStatus.skipped "WorkItemSkipped" notes none
