-- ===== src/TaskQueue/Scans.antt =====
-- What a pass of `next_task` does to the lock and to the claims of one item.
use puff.Common.{
  ℕ, zero, suc, ◌+◌, Bool, true, false, ◌||◌, none, some, List, [], ◌∷◌, Text, ltb, length, map,
  if_keeps,
}
use puff.TaskQueue.{
  Backend, Found, task_hmap_key, task_queue_key, page, consider, or_rest, Scan, found_of, on_page,
  scan_items, flagged, pages,
}
use puff.TaskQueue.Redis.{Laws}
use puff.TaskQueue.Claims.{Effect, Does, Effect-refl, Effect-trans, open_task-Effect}

module _ (b : Backend) (l : Laws b) (queue_name : Text) (k : Text) where
  consider-Effect :
      (item : Text) (taken : Bool) (now : ℕ) (s : b.Store)
      → Does b l queue_name k now s (consider b queue_name item taken now s)
  unfolding consider
  consider-Effect item taken now s =
      if_keeps (Does b l queue_name k now s) taken (Effect-refl b l queue_name k now s)
        (open_task-Effect b l queue_name k item (b.hget (task_hmap_key queue_name) item s) now s)

  or_rest-Effect :
      (r : Found b queue_name) (now : ℕ) (s s1 : b.Store) (rest : b.Store × Found b queue_name)
      → Effect b l queue_name k now s s1 r
      → Does b l queue_name k now s1 rest
      → Does b l queue_name k now s (or_rest b queue_name r s1 rest)
  unfolding or_rest
  or_rest-Effect (some r) now s s1 rest f g = f
  or_rest-Effect none now s s1 rest f g = Effect-trans b l queue_name k f g

  -- A page of items, in its order up to the first that is returned.
  pub page-Effect :
      (now : ℕ) (items : List (Text × Bool × Bool)) (s : b.Store)
      → Does b l queue_name k now s (page b queue_name now items s)
  unfolding page
  page-Effect now [] s = Effect-refl b l queue_name k now s
  page-Effect now ((item, locked, completed) ∷ more) s =
      let (s1, r) = consider b queue_name item (locked || completed) now s in
      or_rest-Effect r now s s1 (page b queue_name now more s1)
        (consider-Effect item (locked || completed) now s) (page-Effect now more s1)

  on_page-Effect :
      (r : Found b queue_name) (short : Bool) (now : ℕ) (s s1 : b.Store)
      (rest : b.Store × Scan b queue_name)
      → Effect b l queue_name k now s s1 r
      → Does b l queue_name k now s1 (found_of b queue_name rest)
      → Does b l queue_name k now s (found_of b queue_name (on_page b queue_name r short s1 rest))
  unfolding on_page
  on_page-Effect (some (item, t)) short now s s1 rest f g = f
  on_page-Effect none true now s s1 rest f g = f
  on_page-Effect none false now s s1 rest f g = Effect-trans b l queue_name k f g

  scan_items-Effect :
      (items : List Text) (tasks_per_loop now : ℕ) (s : b.Store)
      (rest : b.Store → b.Store × Scan b queue_name)
      → ((s1 : b.Store) → Does b l queue_name k now s1 (found_of b queue_name (rest s1)))
      → Does b l queue_name k now s
          (found_of b queue_name (scan_items b queue_name items tasks_per_loop now s rest))
  unfolding scan_items
  scan_items-Effect [] tasks_per_loop now s rest g = Effect-refl b l queue_name k now s
  scan_items-Effect (x ∷ xs) tasks_per_loop now s rest g =
      let items = map (flagged b queue_name now s) (x ∷ xs) in
      let (s1, r) = page b queue_name now items s in
      on_page-Effect r (ltb (length (x ∷ xs)) tasks_per_loop) now s s1 (rest s1)
        (page-Effect now items s) (g s1)

  -- A pass over the pages.
  pub pages-Effect :
      (fuel tasks_per_loop now offset : ℕ) (s : b.Store)
      → Does b l queue_name k now s
          (found_of b queue_name (pages b queue_name fuel tasks_per_loop now offset s))
  unfolding pages
  pages-Effect zero tasks_per_loop now offset s = Effect-refl b l queue_name k now s
  pages-Effect (suc fuel) tasks_per_loop now offset s =
      scan_items-Effect (b.range (task_queue_key queue_name) now offset tasks_per_loop s)
        tasks_per_loop now s (pages b queue_name fuel tasks_per_loop now (offset + tasks_per_loop))
        (pages-Effect fuel tasks_per_loop now (offset + tasks_per_loop))
