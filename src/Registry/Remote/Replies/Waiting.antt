-- ===== src/Registry/Remote/Replies/Waiting.antt =====
-- The waits for replies end.
use puff.Common.{
  ℕ, zero, suc, ◌+◌, ◌*◌, ◌≤◌, ◌≡◌, refl, true, false, Bool, Option, none, some, Text, Result, ok,
  err, leb, is_some, arith,
}
use puff.Registry.Remote.{
  Backend, AgentRegistryError, RedisMailboxReply, RedisControlReply, RedisControlRequestKind,
  push_remote_request, push_remote_control_request, remote_reply_poll_ms,
}
use puff.Registry.Remote.Replies.{
  unless_there, wait_for, wait_for_remote_reply, wait_for_remote_control_reply, send_remote_message,
  send_remote_control, Waits, after_push, read_reply, read_control,
}

module _ (b : Backend) (meanwhile : ℕ → b.Store → b.Store) (wake : ℕ → ℕ) where
  ends_over :
      {A : Type 0} (key : Text) (decode : Text → Result Text A) (late : Text)
      (looked : b.Store × Result Text (Option Text)) (again : Waits b meanwhile wake A)
      → is_some (unless_there b meanwhile wake key decode late true looked again).1 ≡ true
  ends_over key decode late (s, err e) again = refl
  ends_over key decode late (s, ok (some x)) again = refl
  ends_over key decode late (s, ok none) again = refl

  ends_again :
      {A : Type 0} (key : Text) (decode : Text → Result Text A) (late : Text) (over : Bool)
      (looked : b.Store × Result Text (Option Text)) (again : Waits b meanwhile wake A)
      → is_some again.1 ≡ true
      → is_some (unless_there b meanwhile wake key decode late over looked again).1 ≡ true
  ends_again key decode late over (s, err e) again h = refl
  ends_again key decode late over (s, ok (some x)) again h = refl
  ends_again key decode late true (s, ok none) again h = refl
  ends_again key decode late false (s, ok none) again h = h

  -- A sleep is as long as it should be, or longer.
  module _ (sleeps : (now : ℕ) → now + remote_reply_poll_ms ≤ wake now) where
    wait_for_ends :
        {A : Type 0} (key : Text) (decode : Text → Result Text A) (late : Text) (deadline : ℕ)
        (n now : ℕ) (s : b.Store)
        → deadline ≤ now + remote_reply_poll_ms * n
        → is_some (wait_for b meanwhile wake key decode late deadline (suc n) now s).1 ≡ true
    unfolding wait_for
    wait_for_ends key decode late deadline zero now s h =
        let e : leb deadline now ≡ true = ground arith in
        rw e (ends_over key decode late (b.get_value key s) _)
    wait_for_ends key decode late deadline (suc n) now s h =
        ends_again key decode late (leb deadline now) (b.get_value key s) _
          (wait_for_ends key decode late deadline n (wake now) _ (omega (arith, sleeps now)))

    read_ends :
        (empty : Text) (w : Waits b meanwhile wake RedisMailboxReply)
        → is_some w.1 ≡ true
        → is_some (read_reply b meanwhile wake empty w).1 ≡ true
    read_ends empty (s, none) h = cc
    read_ends empty (s, some (err e)) h = refl
    read_ends empty (s, some (ok r)) h = refl

    read_control_ends :
        (empty : Text) (w : Waits b meanwhile wake RedisControlReply)
        → is_some w.1 ≡ true
        → is_some (read_control b meanwhile wake empty w).1 ≡ true
    read_control_ends empty (s, none) h = cc
    read_control_ends empty (s, some (err e)) h = refl
    read_control_ends empty (s, some (ok r)) h = refl

    push_ends :
        {A : Type 0} (p : b.Store × Result AgentRegistryError (Unit {0}))
        (k : b.Store → Waits b meanwhile wake A)
        → ((s : b.Store) → is_some (k s).1 ≡ true)
        → is_some (after_push b meanwhile wake p k).1 ≡ true
    push_ends (s, err e) k h = refl
    push_ends (s, ok _) k h = h s

    -- If a sleep of 50 ms takes at least that, a message and a control that are sent to another process have their
    -- answer or an error after at most 1201 looks for the reply, whatever Redis answers and the others do.
    pub remote_sends_end :
        (request_id key message : Text) (kind : RedisControlRequestKind) (now : ℕ) (s : b.Store)
        → (is_some (send_remote_message b meanwhile wake 1201 request_id key message now s).1
            ≡ true)
          × (is_some (send_remote_control b meanwhile wake 1201 request_id key kind now s).1 ≡ true)
    unfolding send_remote_message wait_for_remote_reply send_remote_control
        wait_for_remote_control_reply
    remote_sends_end request_id key message kind now s = (
      push_ends (push_remote_request b key _ s) _
          (λ s1. read_ends _ _ (wait_for_ends _ b.decode_reply _ _ 1200 now s1 (omega arith))),
      push_ends (push_remote_control_request b key _ s) _ (λ s1.
          read_control_ends _ _
            (wait_for_ends _ b.decode_control_reply _ _ 1200 now s1 (omega arith))),
    )
