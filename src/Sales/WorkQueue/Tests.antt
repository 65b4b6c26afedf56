-- ===== src/Sales/WorkQueue/Tests.antt =====
-- A work queue with three items.
use mathlib.Core.List.{Perm}
use argus_os.Prelude.{ℕ, String, true, ◌≡◌, refl, Option, none, some, List, [], ◌∷◌, ok, string_eq}
use argus_os.Prelude.Lists.{select}
use argus_os.Prelude.Dict.{lookup, values}
use argus_os.Sales.WorkQueue.{
  WorkItem, WorkItemType, WorkItemStatus, WorkQueue, is_open, goes_before, has_open_status,
  order_work_items, pending_items,
}
use argus_os.Sales.WorkQueue.Settled.{Call, run, run_closed}
use argus_os.Prelude.Sort.{sort, place, Ordered}
use argus_os.Sales.WorkQueue.Order.{unfinished, Precedes, ranked, pending_items_lem}

abbrev item : String → WorkItemStatus → Option ℕ → ℕ → WorkItem
item id status due_date created_at = record {
  work_item_id = id;
  lead_id = "l";
  work_type = WorkItemType.call;
  status = status;
  due_date = due_date;
  completed_at = none;
  notes = "";
  created_at = created_at;
}

abbrev old : WorkItem
old = item "old" WorkItemStatus.pending none 1

abbrev dated : WorkItem
dated = item "dated" WorkItemStatus.in_progress (some 9) 2

abbrev over : WorkItem
over = item "over" WorkItemStatus.skipped (some 3) 3

abbrev queue : WorkQueue
queue = record {
  has_bus = true;
  items = ("old", old) ∷ ("over", over) ∷ ("dated", dated) ∷ [];
  published = [];
}

-- The item with a due date comes first, and the skipped one is left out.
order_work_items_test :
    order_work_items (select has_open_status (values queue.items)) ≡ (dated ∷ old ∷ [])
unfolding order_work_items sort place goes_before select has_open_status is_open
order_work_items_test = refl

queue-dated : lookup "dated" queue.items ≡ some dated
unfolding lookup
queue-dated = refl

queue-over : lookup "over" queue.items ≡ some over
unfolding lookup
queue-over = refl

abbrev some_calls : List Call
some_calls =
    Call.start "over" ∷ Call.complete "dated" (some "done") 20 ∷ Call.complete "over" none 21 ∷ []

run_closed_example : lookup "over" (run some_calls queue).items ≡ some over
unfolding is_open
run_closed_example = run_closed "over" over refl some_calls queue (tt, (tt, (tt, tt))) queue-over

pending_items_lem_example :
    (ps : List WorkItem) × ((pending_items queue ≡ (ok ps, queue))
      × (Perm ps (select unfinished (values queue.items))
          × (Ordered Precedes ps
              × ((due : Option ℕ) (created : ℕ)
                  → select (ranked due created) ps
                    ≡ select (ranked due created) (select unfinished (values queue.items))))))
pending_items_lem_example = pending_items_lem queue
