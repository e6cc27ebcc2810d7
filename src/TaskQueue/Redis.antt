-- ===== src/TaskQueue/Redis.antt =====
-- What the queue relies on of Redis, as its manual says.
use puff.Common.{ℕ, suc, ◌+◌, ◌≤◌, ◌<◌, ◌≡◌, ◌≢◌, true, not, some, Text}
use puff.TaskQueue.{Backend}

pub record Laws (b : Backend) : Type 0 where
  -- The number at a key, which is 0 where there is none.
  pub counter : Text → b.Store → ℕ
  -- SET NX sets a key that does not exist, for the time of PX, and never ends a key early.
  pub set_iff :
      (k v : Text) (ttl now : ℕ) (s : b.Store) → (b.set_nx k v ttl now s).1 ≡ not (b.exists k now s)
  pub set_lives :
      (k v : Text) (ttl now t : ℕ) (s : b.Store)
      → (b.set_nx k v ttl now s).1 ≡ true
      → now ≤ t
      → t < now + ttl
      → b.exists k t (b.set_nx k v ttl now s).0 ≡ true
  pub set_keeps :
      (k v : Text) (ttl now : ℕ) (s : b.Store) (j : Text) (t : ℕ)
      → now ≤ t
      → b.exists j t s ≡ true
      → b.exists j t (b.set_nx k v ttl now s).0 ≡ true
  -- The other commands leave other keys alone.
  pub hset_keeps :
      (k f v : Text) (s : b.Store) (j : Text) (t : ℕ)
      → j ≢ k
      → b.exists j t s ≡ true
      → b.exists j t (b.hset k f v s) ≡ true
  pub hdel_keeps :
      (k f : Text) (s : b.Store) (j : Text) (t : ℕ)
      → j ≢ k
      → b.exists j t s ≡ true
      → b.exists j t (b.hdel k f s) ≡ true
  pub zadd_keeps :
      (k m : Text) (score : ℕ) (s : b.Store) (j : Text) (t : ℕ)
      → j ≢ k
      → b.exists j t s ≡ true
      → b.exists j t (b.zadd k m score s) ≡ true
  pub zrem_keeps :
      (k m : Text) (s : b.Store) (j : Text) (t : ℕ)
      → j ≢ k
      → b.exists j t s ≡ true
      → b.exists j t (b.zrem k m s) ≡ true
  pub incr_keeps :
      (k : Text) (s : b.Store) (j : Text) (t : ℕ)
      → j ≢ k
      → b.exists j t s ≡ true
      → b.exists j t (b.incr k s).0 ≡ true
  pub counter_set :
      (k v : Text) (ttl now : ℕ) (s : b.Store) (j : Text)
      → j ≢ k
      → counter j (b.set_nx k v ttl now s).0 ≡ counter j s
  pub counter_hset :
      (k f v : Text) (s : b.Store) (j : Text) → j ≢ k → counter j (b.hset k f v s) ≡ counter j s
  pub counter_hdel :
      (k f : Text) (s : b.Store) (j : Text) → j ≢ k → counter j (b.hdel k f s) ≡ counter j s
  pub counter_zadd :
      (k m : Text) (score : ℕ) (s : b.Store) (j : Text)
      → j ≢ k
      → counter j (b.zadd k m score s) ≡ counter j s
  pub counter_zrem :
      (k m : Text) (s : b.Store) (j : Text) → j ≢ k → counter j (b.zrem k m s) ≡ counter j s
  -- INCR counts up from the number, and tells the new one.
  pub incr_counts :
      (k : Text) (s : b.Store)
      → ((b.incr k s).1 ≡ some (suc (counter k s))) × (counter k (b.incr k s).0 ≡ suc (counter k s))
  pub counter_incr : (k : Text) (s : b.Store) (j : Text) → counter j s ≤ counter j (b.incr k s).0
