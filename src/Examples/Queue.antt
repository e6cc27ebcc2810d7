-- ===== src/Examples/Queue.antt =====
-- A store that keeps the laws, with one task, which a worker claims.
use puff.Common.{
  ℕ, zero, suc, ◌+◌, ◌≤◌, ◌<◌, ◌≡◌, ◌≢◌, refl, Bool, true, false, ◌||◌, ◌&&◌, not, none, some, List,
  [], ◌∷◌, ◌++◌, Text, codes, arith, ok, err, All, count, ◌==◌, text_eq, text_beq, text_beq_iff,
  if◌then◌else◌, ltb, leb, ==-refl,
}
use puff.Common.Json.{null}
use puff.TaskQueue.{Task, Backend, found, pages, item_key_lock, item_key_retries, item_key_complete}
use puff.TaskQueue.Redis.{Laws}
use puff.TaskQueue.History.{Call, adds, passes, returned, handed_out_again, count-returned_le}

record Memory : Type 0 where
  alive : Text → ℕ → Bool
  counters : Text → ℕ
  items : List Text

abbrev task : Task
task = record {
  id = codes "i";
  func_import_path = codes "m.f";
  params = null;
  scheduled_at = 5;
  timeout_ms = 100;
  keep_results_for_ms = 7;
  async_fn = true;
}

abbrev set_for : Text → ℕ → ℕ → Memory → Memory
set_for k ttl now m = record m {
  alive = λ j t. (j == k && (leb now t && ltb t (now + ttl))) || m.alive j t;
}

set_memory : Text → ℕ → ℕ → Memory → Memory
set_memory k ttl now m = if m.alive k now then m else set_for k ttl now m

abbrev backend : Backend
backend = record {
  Store = Memory;
  exists = λ k now m. m.alive k now;
  value = λ k now m. none;
  hget = λ k f m. some [];
  range = λ k high offset n m. elim offset [ zero ↦ m.items | suc o ↦ [] ];
  hset = λ k f v m. m;
  hdel = λ k f m. m;
  zadd = λ k i score m. record m { items = m.items ++ i ∷ [] };
  zrem = λ k i m. record m { items = [] };
  set_nx = λ k v ttl now m. (set_memory k ttl now m, not (m.alive k now));
  incr = λ k m. (
    record m { counters = λ j. if j == k then suc (m.counters k) else m.counters j },
    some (suc (m.counters k)),
  );
  encode_task = λ t. [];
  decode_task = λ s. ok task;
  encode_result = λ r. [];
  decode_result = λ s. err [];
}

set_memory_lives :
    (k : Text) (ttl now t : ℕ) (m : Memory)
    → not (m.alive k now) ≡ true
    → now ≤ t
    → t < now + ttl
    → (set_memory k ttl now m).alive k t ≡ true
unfolding set_memory
set_memory_lives k ttl now t m h le lt = ground (arith, ==-refl k)

set_memory_keeps :
    (k : Text) (ttl now : ℕ) (m : Memory) (j : Text) (t : ℕ)
    → m.alive j t ≡ true
    → (set_memory k ttl now m).alive j t ≡ true
unfolding set_memory
set_memory_keeps k ttl now m j t h = ground arith

set_memory_counters :
    (k : Text) (ttl now : ℕ) (m : Memory) (j : Text)
    → (set_memory k ttl now m).counters j ≡ m.counters j
unfolding set_memory
set_memory_counters k ttl now m j = ground arith

counts_up : (j k : Text) (n : Text → ℕ) → n j ≤ (if j == k then suc (n k) else n j)
counts_up j k n = ground (arith, text_beq_iff j k)

counts_itself : (k : Text) (n : Text → ℕ) → (if k == k then suc (n k) else n k) ≡ suc (n k)
counts_itself k n = rw (==-refl k) refl

laws : Laws backend
laws = record {
  counter = λ k m. m.counters k;
  set_iff = λ k v ttl now m. refl;
  set_lives = λ k v ttl now t m h le lt. set_memory_lives k ttl now t m h le lt;
  set_keeps = λ k v ttl now m j t le h. set_memory_keeps k ttl now m j t h;
  hset_keeps = λ k f v m j t n h. h;
  hdel_keeps = λ k f m j t n h. h;
  zadd_keeps = λ k i score m j t n h. h;
  zrem_keeps = λ k i m j t n h. h;
  incr_keeps = λ k m j t n h. h;
  counter_set = λ k v ttl now m j n. set_memory_counters k ttl now m j;
  counter_hset = λ k f v m j n. refl;
  counter_hdel = λ k f m j n. refl;
  counter_zadd = λ k i score m j n. refl;
  counter_zrem = λ k i m j n. refl;
  incr_counts = λ k m. (refl, counts_itself k m.counters);
  counter_incr = λ k m j. counts_up j k m.counters;
}

abbrev start : Memory
start = record { alive = λ k t. false; counters = λ k. 0; items = codes "i" ∷ [] }

-- What a pass at a time leaves.
abbrev claimed : Memory
claimed = (pages backend (codes "q") 2 1 10 0 start).0

pass_claims : pages backend (codes "q") 2 1 10 0 start ≡ (claimed, found (codes "i") task)
unfolding pages set_memory
pass_claims = refl

abbrev later : List (ℕ × Call)
later = (10, passes 2 1) ∷ (50, adds task true) ∷ (109, passes 2 1) ∷ []

handed_out_again_example : All (λ i. i ≢ codes "i") (returned backend (codes "q") later claimed)
handed_out_again_example =
    handed_out_again backend laws (codes "q") (codes "i") 2 1 10 start claimed task later
      pass_claims (omega arith)

count-returned_le_example :
    count
      (λ i. i == codes "i")
      (returned backend
        (codes "q")
        ((10, passes 2 1) ∷ (110, passes 2 1) ∷ (210, passes 2 1) ∷ (310, passes 2 1) ∷ [])
        start)
    ≤ 3
unfolding laws
count-returned_le_example =
    count-returned_le backend laws (codes "q") (codes "i")
      ((10, passes 2 1) ∷ (110, passes 2 1) ∷ (210, passes 2 1) ∷ (310, passes 2 1) ∷ []) start refl

-- The fourth claim gives the task up.
three_times :
    returned backend
      (codes "q")
      ((10, passes 2 1)
        ∷ (110, passes 2 1)
        ∷ (150, passes 2 1)
        ∷ (210, passes 2 1)
        ∷ (310, passes 2 1)
        ∷ [])
      start
    ≡ codes "i" ∷ codes "i" ∷ codes "i" ∷ []
unfolding returned pages set_memory text_beq item_key_lock item_key_complete item_key_retries
three_times = refl
