-- ===== src/Registry/Remote/Kept.antt =====
-- No request is lost, however the commands of senders and bridges are ordered, and where commands fail.
use puff.Common.{
  ℕ, zero, suc, ◌+◌, ◌≤◌, ◌≡◌, ◌≢◌, refl, sym, ◌∙◌, Bool, false, Option, none, some, List, [], ◌∷◌,
  Text, codes, ◌&&◌, Result, ok, err, is_ok, arith, count, count-append, append_cancel, ◌==◌,
  text_eq, text_beq, text_beq_iff, if◌then◌else◌,
}
use puff.Registry.Remote.{
  Backend, RedisMailboxRequest, Loops, push_remote_request, pop_remote_request, pop_remote_payload,
  ack_remote_request, ack_remote_payload, recover_processing_queue, unless_moved, or_redis,
  mailbox_pending_key, mailbox_processing_key,
}
use puff.Registry.Remote.Laws.{
  Laws, Kept, Moved, Pushed, Removed, Push, pushed, push_unheard, push_failed, Move, moved, nothing,
  move_unheard, move_failed, Remove, removed, remove_unheard, remove_failed, remove_first,
}

pub pending_ne_processing : (key : Text) → mailbox_pending_key key ≢ mailbox_processing_key key
unfolding mailbox_pending_key mailbox_processing_key
pending_ne_processing key h =
    absurd (ground (arith, append_cancel key (append_cancel (codes "puff:agents:mailbox:") h)))

remove_first-count :
    (p v : Text) (xs : List Text)
    → count (λ x. x == p) xs ≤ count (λ x. x == p) (remove_first v xs) + (if v == p then 1 else 0)
unfolding remove_first text_beq
remove_first-count p v [] = omega arith
remove_first-count p v (x ∷ xs) = ground (arith, remove_first-count p v xs, text_beq_iff x v)

module _ (b : Backend) (key : Text) where
  -- What senders and bridges do to the queues of an agent.
  pub data Call : Type 0 where
    sends : RedisMailboxRequest → Call
    takes : Call
    acknowledges : Text → Call
    recovers : ℕ → Call

  pub made : Call → b.Store → b.Store
  made (sends r) s = (push_remote_request b key r s).0
  made takes s = (pop_remote_request b key s).0
  made (acknowledges payload) s = (ack_remote_request b key payload s).0
  made (recovers n) s =
      (recover_processing_queue b n (mailbox_processing_key key) (mailbox_pending_key key) s).0

  pub after_calls : List Call → b.Store → b.Store
  after_calls [] s = s
  after_calls (c ∷ more) s = after_calls more (made c s)

  module _ (p : Text) where
    -- Whether a call sends the request, and Redis says that it has it.
    pub accepts : Call → b.Store → Bool
    accepts (sends r) s = b.encode_request r == p && is_ok (push_remote_request b key r s).1
    accepts _ s = false

    pub accepted : List Call → b.Store → ℕ
    accepted [] s = 0
    accepted (c ∷ more) s = (if accepts c s then 1 else 0) + accepted more (made c s)

    pub acknowledged : List Call → ℕ
    acknowledged [] = 0
    acknowledged (acknowledges q ∷ more) = let n = acknowledged more in if q == p then suc n else n
    acknowledged (c ∷ more) = acknowledged more

module _ (b : Backend) (l : Laws b) (key p : Text) where
  -- How often the request stands in a queue.
  abbrev times : Text → b.Store → ℕ
  times k s = count (λ x. x == p) (l.items k s)

  abbrev waiting : Text
  waiting = mailbox_pending_key key

  abbrev working : Text
  working = mailbox_processing_key key

  abbrev pub total : b.Store → ℕ
  total s = times waiting s + times working s

  apart : waiting ≢ working
  apart = pending_ne_processing key

  apart' : working ≢ waiting
  apart' h = pending_ne_processing key (sym h)

  total-Kept : (s s' : b.Store) → Kept l.items s s' → total s' ≡ total s
  total-Kept s s' k = rw (k waiting, k working) refl

  total-Pushed :
      (v : Text) (s s' : b.Store)
      → Pushed l.items waiting v s s'
      → total s' ≡ total s + (if v == p then 1 else 0)
  total-Pushed v s s' (e, o) = rw (e, o working apart') (ground arith)

  total-Removed :
      (v : Text) (s s' : b.Store)
      → Removed l.items working v s s'
      → total s ≤ total s' + (if v == p then 1 else 0)
  total-Removed v s s' (e, o) =
      rw (e, o waiting apart) (omega (arith, remove_first-count p v (l.items working s)))

  times-Moved :
      (from to : Text) (xs : List Text) (x : Text) (s s' : b.Store)
      → Moved l.items from to xs x s s'
      → times from s' + times to s' ≡ times from s + times to s
  times-Moved from to xs x s s' m =
      rw (m.was, m.left, m.came) (ground (arith, count-append (λ y. y == p) xs (x ∷ [])))

  times-Move :
      (from to : Text) (s s' : b.Store) (r : Result Text (Option Text))
      → Move l.items from to s s' r
      → times from s' + times to s' ≡ times from s + times to s
  times-Move from to s s' r (moved xs x m) = times-Moved from to xs x s s' m
  times-Move from to s s' r (nothing z k) = rw (k from, k to) refl
  times-Move from to s s' r (move_unheard e xs x m) = times-Moved from to xs x s s' m
  times-Move from to s s' r (move_failed e k) = rw (k from, k to) refl

  total-Push :
      (v : Text) (s s' : b.Store) (r : Result Text (Unit {0}))
      → Push l.items waiting v s s' r
      → total s + (if v == p && is_ok (or_redis r) then 1 else 0) ≤ total s'
  total-Push v s s' r (pushed h) = ground (arith, total-Pushed v s s' h)
  total-Push v s s' r (push_unheard e h) = ground (arith, total-Pushed v s s' h)
  total-Push v s s' r (push_failed e k) = ground (arith, total-Kept s s' k)

  total-Remove :
      (v : Text) (s s' : b.Store) (r : Result Text (Unit {0}))
      → Remove l.items working v s s' r
      → total s ≤ total s' + (if v == p then 1 else 0)
  total-Remove v s s' r (removed h) = total-Removed v s s' h
  total-Remove v s s' r (remove_unheard e h) = total-Removed v s s' h
  total-Remove v s s' r (remove_failed e k) = omega (arith, total-Kept s s' k)

  times_unless :
      (s1 : b.Store) (r : Result Text (Option Text)) (again : Loops b) (n : ℕ)
      → total s1 ≡ n
      → total again.0 ≡ n
      → total (unless_moved b s1 r again).0 ≡ n
  times_unless s1 (err e) again n h k = h
  times_unless s1 (ok none) again n h k = h
  times_unless s1 (ok (some x)) again n h k = k

  total-recover :
      (n : ℕ) (s : b.Store) → total (recover_processing_queue b n working waiting s).0 ≡ total s
  unfolding recover_processing_queue
  total-recover zero s = refl
  total-recover (suc n) s =
      let h : total (b.rpoplpush working waiting s).0 ≡ total s =
        omega
          (arith, times-Move working waiting s _ _ (l.rpoplpush_moves working waiting s apart')) in
      times_unless _ _ _ (total s) h (total-recover n _ ∙ h)

  total-made :
      (c : Call b key) (s : b.Store)
      → total s + (if accepts b key p c s then 1 else 0)
        ≤ total (made b key c s) + acknowledged b key p (c ∷ [])
  unfolding made accepts acknowledged push_remote_request pop_remote_request pop_remote_payload
      ack_remote_request ack_remote_payload
  total-made (sends r) s =
      omega (
        arith,
        total-Push (b.encode_request r) s _ _ (l.lpush_pushes waiting (b.encode_request r) s),
      )
  total-made takes s =
      omega (arith, times-Move waiting working s _ _ (l.brpoplpush_moves waiting working 1 s apart))
  total-made (acknowledges q) s = omega (arith, total-Remove q s _ _ (l.lrem_removes working q s))
  total-made (recovers n) s = omega (arith, total-recover n s)

  acknowledged_cons :
      (c : Call b key) (more : List (Call b key))
      → acknowledged b key p (c ∷ more) ≡ acknowledged b key p (c ∷ []) + acknowledged b key p more
  unfolding acknowledged
  acknowledged_cons (sends r) more = omega arith
  acknowledged_cons takes more = omega arith
  acknowledged_cons (acknowledges q) more = ground arith
  acknowledged_cons (recovers n) more = omega arith

  -- Over any sequence of the calls that senders and bridges make on the queues of an agent, where some commands
  -- fail or their answers are lost, a request stands in the queues, or was acknowledged, as often as it stood in them before
  -- and a sender was told that Redis has it: it is not lost.
  pub accepted_are_kept :
      (calls : List (Call b key)) (s : b.Store)
      → total s + accepted b key p calls s
        ≤ total (after_calls b key calls s) + acknowledged b key p calls
  unfolding accepted after_calls acknowledged
  accepted_are_kept [] s = omega arith
  accepted_are_kept (c ∷ more) s =
      omega
        (arith, total-made c s, accepted_are_kept more (made b key c s), acknowledged_cons c more)
