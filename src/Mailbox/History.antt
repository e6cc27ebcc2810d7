-- ===== src/Mailbox/History.antt =====
-- The task of an agent's mailbox from its start, over any inputs.
use puff.Common.{
  ℕ, suc, ◌+◌, ◌≡◌, refl, true, false, Option, none, some, List, [], ◌∷◌, Text, length,
  length-append, arith,
}
use puff.Conversation.{Conversation}
use puff.Supervision.Node.{running, stop, restart, Runtime}
use puff.Supervision.Reads.{Status, status}
use puff.Mailbox.{
  Agent, send_user_message, get_conversation, Input, supervisor, mailbox, Settings, Mailbox, begin,
  respond, run, persist, stop_mailbox, restart_mailbox, serve_message, shows,
}
use puff.Mailbox.Node.{
  Shows, restarts_in, requests_in, respond-Shows, run_ended, run_live, status-set_node_state,
}

module _ (a : Agent) (c : Settings) where
  -- A property of what an input leaves holds in the end, if that input ends the task.
  ends_with :
      (P : Mailbox a c → Type 0) (i : Input) (now : ℕ) (inputs : List (Input × ℕ)) (s : Mailbox a c)
      → s.ended ≡ false
      → (respond a c i now s).ended ≡ true
      → P (respond a c i now s)
      → P (run a c ((i, now) ∷ inputs) s)
  ends_with P i now inputs s live over h =
      rw (run_live a c i now inputs s live, run_ended a c inputs (respond a c i now s) over) h

  Shows-renumbered : (j k : ℕ) (s : Mailbox a c) → j ≡ k → Shows a c s j → Shows a c s k
  Shows-renumbered j k s e h = record {
    node = h.node;
    there = h.there;
    state = h.state;
    count = ground (arith, h.count);
  }

  run_from-Shows :
      (inputs : List (Input × ℕ)) (k : ℕ) (s : Mailbox a c)
      → s.ended ≡ false
      → Shows a c s k
      → Shows a c (run a c inputs s) (k + restarts_in inputs)
  unfolding run respond stop_mailbox restart_mailbox serve_message persist
  run_from-Shows [] k s live h = record {
    node = h.node;
    there = h.there;
    state = h.state;
    count = ground (arith, h.count);
  }
  run_from-Shows ((supervisor none, now) ∷ inputs) k s live h =
      ends_with (λ t. Shows a c t (k + 0)) (supervisor none) now inputs s live refl
        (respond-Shows a c (supervisor none) now k s live h)
  run_from-Shows ((supervisor (some stop), now) ∷ inputs) k s live h =
      ends_with (λ t. Shows a c t (k + 0)) (supervisor (some stop)) now inputs s live refl
        (respond-Shows a c (supervisor (some stop)) now k s live h)
  run_from-Shows ((mailbox none, now) ∷ inputs) k s live h =
      ends_with (λ t. Shows a c t (k + 0)) (mailbox none) now inputs s live refl
        (respond-Shows a c (mailbox none) now k s live h)
  run_from-Shows ((supervisor (some restart), now) ∷ inputs) k s live h =
      rw (run_live a c (supervisor (some restart)) now inputs s live) (
        Shows-renumbered (k + 1 + restarts_in inputs) (k + suc (restarts_in inputs)) _ (omega arith)
          (run_from-Shows inputs (k + 1) (restart_mailbox a c now s) live
            (respond-Shows a c (supervisor (some restart)) now k s live h)))
  run_from-Shows ((mailbox (some (send_user_message m)), now) ∷ inputs) k s live h =
      rw (run_live a c (mailbox (some (send_user_message m))) now inputs s live) (
        Shows-renumbered (k + 0 + restarts_in inputs) (k + restarts_in inputs) _ (omega arith) (
          run_from-Shows inputs (k + 0) (serve_message a c m now s) live
            (respond-Shows a c (mailbox (some (send_user_message m))) now k s live h)))
  run_from-Shows ((mailbox (some get_conversation), now) ∷ inputs) k s live h =
      rw (run_live a c (mailbox (some get_conversation)) now inputs s live) (
        Shows-renumbered (k + 0 + restarts_in inputs) (k + restarts_in inputs) _ (omega arith) (
          run_from-Shows inputs (k + 0) (respond a c (mailbox (some get_conversation)) now s) live
            (respond-Shows a c (mailbox (some get_conversation)) now k s live h)))

  serve_message-replies :
      (m : Text) (now : ℕ) (s : Mailbox a c)
      → length (serve_message a c m now s).replies ≡ length s.replies + 1
  unfolding serve_message persist
  serve_message-replies m now s = length-append s.replies (_ ∷ [])

  run_from-replies :
      (inputs : List (Input × ℕ)) (s : Mailbox a c)
      → s.ended ≡ false
      → length (run a c inputs s).replies ≡ length s.replies + requests_in inputs
  unfolding run respond stop_mailbox restart_mailbox serve_message persist
  run_from-replies [] s live = omega arith
  run_from-replies ((supervisor none, now) ∷ inputs) s live =
      ends_with (λ t. length t.replies ≡ length s.replies + 0) (supervisor none) now inputs s live
        refl (omega arith)
  run_from-replies ((supervisor (some stop), now) ∷ inputs) s live =
      ends_with (λ t. length t.replies ≡ length s.replies + 0) (supervisor (some stop)) now inputs s
        live refl (omega arith)
  run_from-replies ((mailbox none, now) ∷ inputs) s live =
      ends_with (λ t. length t.replies ≡ length s.replies + 0) (mailbox none) now inputs s live refl
        (omega arith)
  run_from-replies ((supervisor (some restart), now) ∷ inputs) s live =
      rw (run_live a c (supervisor (some restart)) now inputs s live)
        (run_from-replies inputs (restart_mailbox a c now s) live)
  run_from-replies ((mailbox (some (send_user_message m)), now) ∷ inputs) s live =
      rw (run_live a c (mailbox (some (send_user_message m))) now inputs s live) (
        omega (
          arith,
          run_from-replies inputs (serve_message a c m now s) live,
          serve_message-replies m now s,
        ))
  run_from-replies ((mailbox (some get_conversation), now) ∷ inputs) s live =
      rw (run_live a c (mailbox (some get_conversation)) now inputs s live) (
        omega (
          arith,
          run_from-replies inputs (respond a c (mailbox (some get_conversation)) now s) live,
          length-append s.replies (shows s.conversation ∷ []),
        ))

  -- The node of an agent with a mailbox, which is there when the task starts with a restart count of 0,
  -- is Running after any inputs until one ends the task, also after turns that failed, and Stopped from
  -- then on; its restart count is the number of restarts taken, mod 2^64.
  pub run-Shows_node :
      (loaded : Option Conversation) (w : a.World) (start : ℕ) (rt : Runtime) (n : Status)
      (inputs : List (Input × ℕ))
      → status rt c.node_id ≡ some n
      → n.restart_count ≡ 0
      → Shows a c (run a c inputs (begin a c loaded w start rt)) (restarts_in inputs)
  unfolding begin
  run-Shows_node loaded w start rt n inputs h z =
      Shows-renumbered (0 + restarts_in inputs) (restarts_in inputs) _ (omega arith) (
        run_from-Shows inputs 0 (begin a c loaded w start rt) refl (record {
          node = record n { state = running };
          there = simp (status-set_node_state, h);
          state = refl;
          count = rw z refl;
        }))

  -- Each request that the task takes before it ends gets one reply.
  pub replies-run :
      (loaded : Option Conversation) (w : a.World) (start : ℕ) (rt : Runtime)
      (inputs : List (Input × ℕ))
      → length (run a c inputs (begin a c loaded w start rt)).replies ≡ requests_in inputs
  unfolding begin
  replies-run loaded w start rt inputs =
      omega (arith, run_from-replies inputs (begin a c loaded w start rt) refl)
