-- ===== src/TaskQueue/Claims.antt =====
-- What an operation does to the lock and to the claims of one item.
use mathlib.Core.Path.{subst}
use puff.Common.{
  ℕ, suc, ◌+◌, ◌≤◌, ◌<◌, ◌≡◌, ◌≢◌, refl, Bool, true, false, not, Option, none, some, ◌++◌, Text,
  arith, Result, ok, err, Bool-cases, inl, inr, ltb, if_keeps, if_cases, codes,
}
use puff.Common.Json.{Json}
use puff.TaskQueue.{
  Task, Backend, Found, item_key_lock, item_key_complete, item_key_retries, task_hmap_key,
  task_queue_key, add_task, finish_task, result_of, retry, claim, open_task, open_decoded,
  max_retries,
}
use puff.TaskQueue.Redis.{Laws}
use puff.TaskQueue.Keys.{
  lock_ne_retries, lock_ne_tasks, lock_ne_queue, lock_ne_wait, retries_ne_lock, retries_ne_complete,
  retries_ne_tasks, retries_ne_queue, retries_ne_wait,
}

module _ (b : Backend) (l : Laws b) (queue_name : Text) (k : Text) where
  -- How often the item was claimed.
  abbrev pub claims : b.Store → ℕ
  claims s = l.counter (item_key_retries queue_name k) s

  abbrev pub locked_at : ℕ → b.Store → Bool
  locked_at t s = b.exists (item_key_lock queue_name k) t s

  -- An operation at a time, which returns an item or none: it takes back no claim and no lock, and where it
  -- returns the item, that was not locked, one more claim is counted, of three at most, and it is
  -- locked for the task's timeout.
  pub record Effect (now : ℕ) (s s' : b.Store) (r : Found b queue_name) : Type 0 where
    pub counts : claims s ≤ claims s'
    pub keeps : (t : ℕ) → now ≤ t → locked_at t s ≡ true → locked_at t s' ≡ true
    pub returns :
        (task : Task)
        → r ≡ some (k, task)
        → (locked_at now s ≡ false)
          × (claims s < claims s')
          × (claims s' ≤ max_retries)
          × ((t : ℕ) → now ≤ t → t < now + task.timeout_ms → locked_at t s' ≡ true)

  pub Effect-refl : (now : ℕ) (s : b.Store) → Effect now s s none
  Effect-refl now s = record { counts = omega arith; keeps = λ t le h. h; returns = λ task e. cc }

  unlocked_before :
      {now : ℕ} {s s' : b.Store} {r : Found b queue_name}
      → Effect now s s' r
      → locked_at now s' ≡ false
      → locked_at now s ≡ false
  unlocked_before {now} {s} {s'} f h = elim (Bool-cases (locked_at now s)) [
    | inl held ↦ absurd (contradiction (f.keeps now (omega arith) held) h)
    | inr free ↦ free
  ]
    where
      contradiction : {c : Bool} → c ≡ true → c ≡ false → ⊥
      contradiction p q = cc

  -- One after the other.
  pub Effect-trans :
      {now : ℕ} {s s1 s2 : b.Store} {r r' : Found b queue_name}
      → Effect now s s1 r
      → Effect now s1 s2 r'
      → Effect now s s2 r'
  Effect-trans f g = record {
    counts = omega (arith, f.counts, g.counts);
    keeps = λ t le h. g.keeps t le (f.keeps t le h);
    returns = λ task e.
        let (free, more, few, held) = g.returns task e in
        (unlocked_before f free, omega (arith, f.counts), few, held);
  }

  quiet :
      (now : ℕ) (s s' : b.Store)
      → claims s ≤ claims s'
      → ((t : ℕ) → now ≤ t → locked_at t s ≡ true → locked_at t s' ≡ true)
      → Effect now s s' none
  quiet now s s' le held = record { counts = le; keeps = held; returns = λ task e. cc }

  set_lock :
      (item v : Text) (ttl now : ℕ) (s : b.Store)
      → Effect now s (b.set_nx (item_key_lock queue_name item) v ttl now s).0 none
  set_lock item v ttl now s =
      quiet now s _
        (omega (
          arith,
          l.counter_set (item_key_lock queue_name item) v ttl now s _
              (retries_ne_lock queue_name k item),
        ))
        (λ t le h. l.set_keeps (item_key_lock queue_name item) v ttl now s _ t le h)

  pub finish_task-Effect :
      (item : Text) (result : Result Text Json) (keep now : ℕ) (s : b.Store)
      → Effect now s (finish_task b queue_name item result keep now s) none
  unfolding finish_task
  finish_task-Effect item result keep now s =
      let s1 = b.hdel (task_hmap_key queue_name) item s in
      let s2 = b.zrem (task_queue_key queue_name) item s1 in
      let done = b.encode_result (result_of result now) in
      Effect-trans
        (quiet now s s1 (omega (arith, l.counter_hdel _ item s _ (retries_ne_tasks queue_name k)))
          (λ t le h. l.hdel_keeps _ item s _ t (lock_ne_tasks queue_name k) h))
        (Effect-trans
          (quiet now s1 s2
            (omega (arith, l.counter_zrem _ item s1 _ (retries_ne_queue queue_name k)))
            (λ t le h. l.zrem_keeps _ item s1 _ t (lock_ne_queue queue_name k) h))
          (quiet now s2 _
            (omega (
              arith,
              l.counter_set (item_key_complete queue_name item) done keep now s2 _
                  (retries_ne_complete queue_name k item),
            ))
            (λ t le h. l.set_keeps (item_key_complete queue_name item) done keep now s2 _ t le h)))

  zadd_quiet :
      (key m : Text) (score now : ℕ) (s : b.Store)
      → item_key_retries queue_name k ≢ key
      → item_key_lock queue_name k ≢ key
      → Effect now s (b.zadd key m score s) none
  zadd_quiet key m score now s n n' =
      quiet now s _ (omega (arith, l.counter_zadd key m score s _ n))
        (λ t le h. l.zadd_keeps key m score s _ t n' h)

  pub add_task-Effect :
      (t : Task) (trigger : Bool) (now : ℕ) (s : b.Store)
      → Effect now s (add_task b queue_name t trigger s) none
  unfolding add_task
  add_task-Effect t trigger now s =
      let s1 = b.hset (task_hmap_key queue_name) t.id (b.encode_task t) s in
      let s2 = b.zadd (task_queue_key queue_name) t.id t.scheduled_at s1 in
      let added : Effect now s s2 none =
        Effect-trans
          (quiet now s s1
            (omega
              (arith, l.counter_hset _ t.id (b.encode_task t) s _ (retries_ne_tasks queue_name k)))
            (λ u le h. l.hset_keeps _ t.id (b.encode_task t) s _ u (lock_ne_tasks queue_name k) h))
          (zadd_quiet _ t.id t.scheduled_at now s1 (retries_ne_queue queue_name k)
            (lock_ne_queue queue_name k)) in
      if_keeps (λ s'. Effect now s s' none) trigger
        (Effect-trans added (
          zadd_quiet _ (codes "1") 0 now s2 (retries_ne_wait queue_name k)
            (lock_ne_wait queue_name k)))
        added

  counted :
      (item : Text) (now : ℕ) (s : b.Store)
      → Effect now s (b.incr (item_key_retries queue_name item) s).0 none
  counted item now s =
      quiet now s _ (l.counter_incr _ s _)
        (λ t le h. l.incr_keeps _ s _ t (lock_ne_retries queue_name k item) h)

  -- The effect of an operation that returns the store and what it found.
  abbrev pub Does : ℕ → b.Store → b.Store × Found b queue_name → Type 0
  Does now s p = Effect now s p.0 p.1

  -- What is so of an item that is returned at a time, for this long.
  abbrev Taken : ℕ → b.Store → b.Store → Text → ℕ → Type 0
  Taken now s s' item timeout_ms =
      (b.exists (item_key_lock queue_name item) now s ≡ false)
      × (l.counter (item_key_retries queue_name item) s
          < l.counter (item_key_retries queue_name item) s')
      × (l.counter (item_key_retries queue_name item) s' ≤ max_retries)
      × ((u : ℕ)
          → now ≤ u
          → u < now + timeout_ms
          → b.exists (item_key_lock queue_name item) u s' ≡ true)

  returned :
      (now : ℕ) (s s' : b.Store) (item : Text) (t : Task)
      → Effect now s s' none
      → Taken now s s' item t.timeout_ms
      → Effect now s s' (some (item, t))
  returned now s s' item t f taken = record {
    counts = f.counts;
    keeps = f.keeps;
    returns = λ task e.
        let same : item ≡ k = cc in
        let same_task : t.timeout_ms ≡ task.timeout_ms = cc in
        subst (λ i. Taken now s s' i task.timeout_ms) same
          (subst (λ u. Taken now s s' item u) same_task taken);
  }

  -- The claim of an item whose lock was free and is set now.
  retry-Effect :
      (item : Text) (t : Task) (now : ℕ) (s s1 : b.Store)
      → Effect now s s1 none
      → l.counter (item_key_retries queue_name item) s1
        ≡ l.counter (item_key_retries queue_name item) s
      → b.exists (item_key_lock queue_name item) now s ≡ false
      → ((u : ℕ)
          → now ≤ u
          → u < now + t.timeout_ms
          → b.exists (item_key_lock queue_name item) u s1 ≡ true)
      → Effect now s (retry b queue_name item t now s1).0 (retry b queue_name item t now s1).1
  unfolding retry
  retry-Effect item t now s s1 f same free held =
      let (told, one_more) = l.incr_counts (item_key_retries queue_name item) s1 in
      let g = Effect-trans f (counted item now s1) in
      rw told (
        if_cases (Does now s)
          (ltb max_retries (suc (l.counter (item_key_retries queue_name item) s1)))
          (λ over.
            Effect-trans g
              (finish_task-Effect item (err (codes "Max retries exceeded")) 86400000 now _))
          (λ few. returned now s _ item t g (
            free,
            omega (arith, one_more, same),
            ground (arith, one_more),
            λ u le lt. l.incr_keeps _ s1 _ u (lock_ne_retries queue_name item item) (held u le lt),
          )))

  free_of : (c d : Bool) → c ≡ not d → c ≡ true → d ≡ false
  free_of c true e h = cc
  free_of c false e h = refl

  claim-Effect :
      (item : Text) (t : Task) (now : ℕ) (s : b.Store)
      → Effect now s (claim b queue_name item t now s).0 (claim b queue_name item t now s).1
  unfolding claim
  claim-Effect item t now s =
      let key = item_key_lock queue_name item in
      if_cases (Does now s) (b.set_nx key (codes "1") t.timeout_ms now s).1
        (λ claimed.
          retry-Effect item t now s _ (set_lock item (codes "1") t.timeout_ms now s)
            (l.counter_set key (codes "1") t.timeout_ms now s _
              (retries_ne_lock queue_name item item))
            (free_of _ _ (l.set_iff key (codes "1") t.timeout_ms now s) claimed)
            (λ u le lt. l.set_lives key (codes "1") t.timeout_ms now u s claimed le lt))
        (λ not_claimed. set_lock item (codes "1") t.timeout_ms now s)

  decoded-Effect :
      (item : Text) (decoded : Result Text Task) (now : ℕ) (s : b.Store)
      → Effect now s
          (open_decoded b queue_name item decoded now s).0
          (open_decoded b queue_name item decoded now s).1
  unfolding open_decoded
  decoded-Effect item (ok t) now s = claim-Effect item t now s
  decoded-Effect item (err e) now s =
      finish_task-Effect item (err (codes "Could not deserialize " ++ e)) 30000 now s

  pub open_task-Effect :
      (item : Text) (bytes : Option Text) (now : ℕ) (s : b.Store)
      → Effect now s
          (open_task b queue_name item bytes now s).0
          (open_task b queue_name item bytes now s).1
  unfolding open_task
  open_task-Effect item none now s = Effect-refl now s
  open_task-Effect item (some bytes) now s = decoded-Effect item (b.decode_task bytes) now s
