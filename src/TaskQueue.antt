-- ===== src/TaskQueue.antt =====
-- src/tasks/mod.rs: the task queue over Redis. The commands of Redis, serde_json, the wall clock and the
-- Python functions are parameters; a failed connection ends an operation and is not modelled. A pass is
-- one round of the loop of `next_task`, up to its wait.
pub mod Keys
pub mod Redis
pub mod Claims
pub mod Scans
pub mod History
use puff.Common.{
  ℕ, zero, suc, ◌+◌, ◌-◌, Bool, ◌||◌, not, Option, none, some, List, [], ◌∷◌, ◌++◌, Text, codes,
  ltb, length, map, if◌then◌else◌, Result, ok, err,
}
use puff.Common.Json.{Json, null}

pub record Task : Type 0 where
  pub id : Text
  pub func_import_path : Text
  pub params : Json
  pub scheduled_at : ℕ
  pub timeout_ms : ℕ
  pub keep_results_for_ms : ℕ
  pub async_fn : Bool

pub record TaskResult : Type 0 where
  pub result : Json
  pub exception : Option Text
  pub finished_at_unix_ms : ℕ

-- The commands of Redis that the queue sends, and what serde_json does. `exists` and `value` read a key at
-- a time, `range` is ZRANGEBYSCORE from -inf with its limit, `set_nx` is SET NX PX and tells whether it
-- was set, `incr` gives the new count unless the value is no number.
pub record Backend : Type 1 where
  pub Store : Type 0
  pub exists : Text → ℕ → Store → Bool
  pub value : Text → ℕ → Store → Option Text
  pub hget : Text → Text → Store → Option Text
  pub range : Text → ℕ → ℕ → ℕ → Store → List Text
  pub hset : Text → Text → Text → Store → Store
  pub hdel : Text → Text → Store → Store
  pub zadd : Text → Text → ℕ → Store → Store
  pub zrem : Text → Text → Store → Store
  pub set_nx : Text → Text → ℕ → ℕ → Store → Store × Bool
  pub incr : Text → Store → Store × Option ℕ
  pub encode_task : Task → Text
  pub decode_task : Text → Result Text Task
  pub encode_result : TaskResult → Text
  pub decode_result : Text → Result Text TaskResult

unfoldable pub item_key_lock : Text → Text → Text
item_key_lock queue_name key = queue_name ++ (codes "-lock-" ++ key)

unfoldable pub item_key_complete : Text → Text → Text
item_key_complete queue_name key = queue_name ++ (codes "-complete-" ++ key)

unfoldable pub item_key_retries : Text → Text → Text
item_key_retries queue_name key = queue_name ++ (codes "-retries-" ++ key)

unfoldable pub task_hmap_key : Text → Text
task_hmap_key queue_name = queue_name ++ codes "-tasks"

unfoldable pub task_queue_key : Text → Text
task_queue_key queue_name = queue_name ++ codes "-queue"

unfoldable pub queue_wait_key : Text → Text
queue_wait_key queue_name = queue_name ++ codes "-wait"

abbrev pub max_retries : ℕ
max_retries = 3

-- The result that is kept, of an outcome.
unfoldable pub result_of : Result Text Json → ℕ → TaskResult
result_of (err e) now = record { result = null; exception = some e; finished_at_unix_ms = now }
result_of (ok r) now = record { result = r; exception = none; finished_at_unix_ms = now }

module _ (b : Backend) (queue_name : Text) where
  unfoldable pub add_task : Task → Bool → b.Store → b.Store
  add_task t trigger s =
      let s1 = b.hset (task_hmap_key queue_name) t.id (b.encode_task t) s in
      let s2 = b.zadd (task_queue_key queue_name) t.id t.scheduled_at s1 in
      if trigger then b.zadd (queue_wait_key queue_name) (codes "1") 0 s2 else s2

  unfoldable pub finish_task : Text → Result Text Json → ℕ → ℕ → b.Store → b.Store
  unfolding result_of
  finish_task item result keep_results_for_ms now s =
      let s1 = b.hdel (task_hmap_key queue_name) item s in
      let s2 = b.zrem (task_queue_key queue_name) item s1 in
      (b.set_nx (item_key_complete queue_name item) (b.encode_result (result_of result now))
        keep_results_for_ms now s2).0

  -- A read of a result: nothing yet, an error, or the value.
  unfoldable pub read_result : Option Text → Result Text (Option Json)
  read_result none = ok none
  read_result (some v) = elim (b.decode_result v) [
    | err e ↦ err e
    | ok t ↦ elim t.exception [
      | some e ↦ err (codes "Task resulted in an error, see logs for details.")
      | none ↦ ok (some t.result)
    ]
  ]

  unfoldable pub task_result : Text → ℕ → b.Store → Result Text (Option Json)
  unfolding read_result
  task_result item now s = read_result (b.value (item_key_complete queue_name item) now s)

  -- The loop of `wait_for_result`: when it polls, and what the store is then.
  unfoldable pub wait_for_result :
      Text → ℕ → ℕ → List (ℕ × b.Store) → Option (Result Text (Option Json))
  unfolding task_result
  wait_for_result item start timeout_ms [] = none
  wait_for_result item start timeout_ms ((now, s) ∷ polls) =
      let again = wait_for_result item start timeout_ms polls in
      elim (task_result item now s) [
        | err e ↦ some (err e)
        | ok (some v) ↦ some (ok (some v))
        | ok none ↦ if ltb (now - start) timeout_ms then again else some (ok none)
      ]

  -- What a pass returns: the task and the item that it is for.
  abbrev pub Found : Type 0
  Found = Option (Text × Task)

  abbrev or_zero : Option ℕ → ℕ
  or_zero none = 0
  or_zero (some n) = n

  -- The count of the claims, after which the task is returned or given up.
  unfoldable pub retry : Text → Task → ℕ → b.Store → b.Store × Found
  unfolding finish_task
  retry item t now s =
      let (s1, retries) = b.incr (item_key_retries queue_name item) s in
      if ltb max_retries (or_zero retries)
      then (finish_task item (err (codes "Max retries exceeded")) 86400000 now s1, none)
      else (s1, some (item, t))

  unfoldable pub claim : Text → Task → ℕ → b.Store → b.Store × Found
  unfolding retry
  claim item t now s =
      let (s1, claimed) = b.set_nx (item_key_lock queue_name item) (codes "1") t.timeout_ms now s in
      if claimed then retry item t now s1 else (s1, none)

  -- What a task that was read is, or why it is none.
  unfoldable pub open_decoded : Text → Result Text Task → ℕ → b.Store → b.Store × Found
  unfolding claim finish_task
  open_decoded item (ok t) now s = claim item t now s
  open_decoded item (err e) now s =
      (finish_task item (err (codes "Could not deserialize " ++ e)) 30000 now s, none)

  -- An item with what the hash has for it.
  unfoldable pub open_task : Text → Option Text → ℕ → b.Store → b.Store × Found
  unfolding open_decoded
  open_task item none now s = (s, none)
  open_task item (some bytes) now s = open_decoded item (b.decode_task bytes) now s

  -- An item is passed by where it was locked, or completed.
  unfoldable pub consider : Text → Bool → ℕ → b.Store → b.Store × Found
  unfolding open_task
  consider item taken now s =
      if taken then (s, none) else open_task item (b.hget (task_hmap_key queue_name) item s) now s

  -- A task that was found is returned at once.
  unfoldable pub or_rest : Found → b.Store → b.Store × Found → b.Store × Found
  or_rest (some f) s rest = (s, some f)
  or_rest none s rest = rest

  -- The loop over the items of a page, with whether each was locked, or completed, when the page was read.
  unfoldable pub page : ℕ → List (Text × Bool × Bool) → b.Store → b.Store × Found
  unfolding consider or_rest
  page now [] s = (s, none)
  page now ((item, locked, completed) ∷ more) s =
      let (s1, found) = consider item (locked || completed) now s in
      or_rest found s1 (page now more s1)

  abbrev pub flagged : ℕ → b.Store → Text → Text × Bool × Bool
  flagged now s item = (
    item,
    b.exists (item_key_lock queue_name item) now s,
    b.exists (item_key_complete queue_name item) now s,
  )

  -- What the loop over the pages ends with: a task, no more items, or no more fuel.
  pub data Scan : Type 0 where
    found : Text → Task → Scan
    nothing_due : Scan
    out_of_fuel : Scan

  -- The task that a scan found.
  abbrev pub found_of : b.Store × Scan → b.Store × Found
  found_of (s, found item t) = (s, some (item, t))
  found_of (s, nothing_due) = (s, none)
  found_of (s, out_of_fuel) = (s, none)

  -- What follows a page, by what it returned and whether it was the last.
  unfoldable pub on_page : Found → Bool → b.Store → b.Store × Scan → b.Store × Scan
  on_page (some (item, t)) short s rest = (s, found item t)
  on_page none short s rest = if short then (s, nothing_due) else rest

  -- The body of the loop over the pages, with the items that were read.
  unfoldable pub scan_items :
      List Text → ℕ → ℕ → b.Store → (b.Store → b.Store × Scan) → b.Store × Scan
  unfolding page on_page
  scan_items [] tasks_per_loop now s rest = (s, nothing_due)
  scan_items (x ∷ xs) tasks_per_loop now s rest =
      let (s1, r) = page now (map (flagged now s) (x ∷ xs)) s in
      on_page r (ltb (length (x ∷ xs)) tasks_per_loop) s1 (rest s1)

  -- The loop over the pages, from an offset.
  unfoldable pub pages : ℕ → ℕ → ℕ → ℕ → b.Store → b.Store × Scan
  unfolding scan_items
  pages zero tasks_per_loop now offset s = (s, out_of_fuel)
  pages (suc fuel) tasks_per_loop now offset s =
      scan_items (b.range (task_queue_key queue_name) now offset tasks_per_loop s) tasks_per_loop
        now s (pages fuel tasks_per_loop now (offset + tasks_per_loop))

  -- `do_loop_iteration`, with what the Python function made of the task.
  unfoldable pub do_loop_iteration : Task → Result Text Json → ℕ → b.Store → b.Store
  unfolding finish_task
  do_loop_iteration task job_result now s =
      finish_task task.id job_result task.keep_results_for_ms now s
