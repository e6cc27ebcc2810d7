-- ===== src/TaskQueue/Keys.antt =====
-- The keys of the queue are apart from each other.
use puff.Common.{append_cancel, ◌≢◌, Text, arith}
use puff.TaskQueue.{
  item_key_lock, item_key_complete, item_key_retries, task_hmap_key, task_queue_key, queue_wait_key,
}

module _ (queue_name : Text) where
  pub lock_ne_complete : (k j : Text) → item_key_lock queue_name k ≢ item_key_complete queue_name j
  unfolding item_key_lock item_key_complete
  lock_ne_complete k j h = absurd (ground (arith, append_cancel queue_name h))

  pub lock_ne_retries : (k j : Text) → item_key_lock queue_name k ≢ item_key_retries queue_name j
  unfolding item_key_lock item_key_retries
  lock_ne_retries k j h = absurd (ground (arith, append_cancel queue_name h))

  pub lock_ne_tasks : (k : Text) → item_key_lock queue_name k ≢ task_hmap_key queue_name
  unfolding item_key_lock task_hmap_key
  lock_ne_tasks k h = absurd (ground (arith, append_cancel queue_name h))

  pub lock_ne_queue : (k : Text) → item_key_lock queue_name k ≢ task_queue_key queue_name
  unfolding item_key_lock task_queue_key
  lock_ne_queue k h = absurd (ground (arith, append_cancel queue_name h))

  pub lock_ne_wait : (k : Text) → item_key_lock queue_name k ≢ queue_wait_key queue_name
  unfolding item_key_lock queue_wait_key
  lock_ne_wait k h = absurd (ground (arith, append_cancel queue_name h))

  pub retries_ne_lock : (k j : Text) → item_key_retries queue_name k ≢ item_key_lock queue_name j
  unfolding item_key_retries item_key_lock
  retries_ne_lock k j h = absurd (ground (arith, append_cancel queue_name h))

  pub retries_ne_complete :
      (k j : Text) → item_key_retries queue_name k ≢ item_key_complete queue_name j
  unfolding item_key_retries item_key_complete
  retries_ne_complete k j h = absurd (ground (arith, append_cancel queue_name h))

  pub retries_ne_tasks : (k : Text) → item_key_retries queue_name k ≢ task_hmap_key queue_name
  unfolding item_key_retries task_hmap_key
  retries_ne_tasks k h = absurd (ground (arith, append_cancel queue_name h))

  pub retries_ne_queue : (k : Text) → item_key_retries queue_name k ≢ task_queue_key queue_name
  unfolding item_key_retries task_queue_key
  retries_ne_queue k h = absurd (ground (arith, append_cancel queue_name h))

  pub retries_ne_wait : (k : Text) → item_key_retries queue_name k ≢ queue_wait_key queue_name
  unfolding item_key_retries queue_wait_key
  retries_ne_wait k h = absurd (ground (arith, append_cancel queue_name h))
