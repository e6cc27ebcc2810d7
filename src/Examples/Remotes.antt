-- ===== src/Examples/Remotes.antt =====
-- A Redis in memory, whose requests are their messages, and the queues of two agents.
use puff.Common.{
  ◌+◌, ◌≤◌, ◌≡◌, ◌≢◌, refl, sym, ap, ◌∙◌, true, Option, none, some, List, [], ◌∷◌, Text, codes,
  Result, ok, err, arith, reverse, ◌==◌, text_eq, text_beq, text_beq_iff, if◌then◌else◌, ==-refl,
  is_some, is_ok,
}
use mathlib.Core.List.{reverse-cons, reverse-reverse}
use puff.Registry.Remote.{
  Backend, RedisMailboxRequest, send_user_message, stop_it, recover_processing_queue,
  mailbox_processing_key, mailbox_pending_key,
}
use puff.Registry.Remote.Laws.{Laws, Move, moved, nothing, pushed, removed, remove_first}
use puff.Errors.{tool_not_found}
use puff.Registry.Remote.Recovery.{Recovered, recover_processing_queue-Recovered}
use puff.Registry.Remote.Kept.{
  Call, sends, takes, acknowledges, recovers, after_calls, accepted, acknowledged, total,
  accepted_are_kept, pending_ne_processing,
}
use puff.Registry.Remote.Bridge.{Mailboxes, bridge_rounds}
use puff.Registry.Remote.Bridge.Order.{bridge_rounds_in_order, heard_all}
use puff.Registry.Remote.Replies.{send_remote_message, send_remote_control}
use puff.Registry.Remote.Replies.Waiting.{remote_sends_end}

abbrev pub Memory : Type 0
Memory = Text → List Text

abbrev put_list : Text → List Text → Memory → Memory
put_list k v m = λ j. if j == k then v else m j

abbrev shifted : Text → Text → List Text → Memory → Memory × Result Text (Option Text)
shifted from to [] m = (m, ok none)
shifted from to (x ∷ rest) m =
    (put_list to (x ∷ m to) (put_list from (reverse rest) m), ok (some x))

abbrev pub memory : Backend
memory = record {
  Store = Memory;
  lpush = λ k v m. (put_list k (v ∷ m k) m, ok tt);
  brpoplpush = λ from to seconds m. shifted from to (reverse (m from)) m;
  rpoplpush = λ from to m. shifted from to (reverse (m from)) m;
  lrem = λ k n v m. (put_list k (remove_first v (m k)) m, ok tt);
  set = λ k v m. (m, ok tt);
  set_ex = λ k v ttl m. (m, ok tt);
  get_value = λ k m. (m, ok none);
  del = λ k m. (put_list k [] m, ok tt);
  hget = λ k f m. (m, ok none);
  hscan = λ k cursor pattern m. (m, ok (0, []));
  decode_entry = λ t. none;
  encode_request = λ r. elim r.kind [ send_user_message t ↦ t ];
  decode_request =
      λ t. some (record { request_id = t; target = t; kind = send_user_message t; created_at = 0 });
  encode_control = λ r. r.request_id;
  decode_control = λ t. none;
  encode_reply = λ r. [];
  decode_reply = λ t. ok (record { response = none; error = some t });
  encode_control_reply = λ r. [];
  decode_control_reply = λ t. ok (record { snapshot = none; error = some t });
}

put_there : (k : Text) (v : List Text) (m : Memory) → put_list k v m k ≡ v
put_there k v m = rw (==-refl k) refl

put_elsewhere : (k j : Text) (v : List Text) (m : Memory) → j ≢ k → put_list k v m j ≡ m j
put_elsewhere k j v m ne = ground (arith, text_beq_iff j k)

shifted-Move :
    (from to : Text) (l : List Text) (m : Memory)
    → from ≢ to
    → reverse (m from) ≡ l
    → Move (λ k n. n k) from to m (shifted from to l m).0 (shifted from to l m).1
shifted-Move from to [] m ne h = nothing (sym (reverse-reverse (m from)) ∙ ap reverse h) (λ j. refl)
shifted-Move from to (x ∷ rest) m ne h = moved (reverse rest) x (record {
  was = sym (reverse-reverse (m from)) ∙ ap reverse h ∙ reverse-cons x rest;
  left =
      put_elsewhere to from (x ∷ m to) (put_list from (reverse rest) m) ne
      ∙ put_there from (reverse rest) m;
  came = put_there to (x ∷ m to) (put_list from (reverse rest) m);
  others = λ j p q.
      put_elsewhere to j (x ∷ m to) (put_list from (reverse rest) m) q
      ∙ put_elsewhere from j (reverse rest) m p;
})

abbrev memory-Laws : Laws memory
memory-Laws = record {
  items = λ k m. m k;
  lpush_pushes =
      λ k v m. pushed (put_there k (v ∷ m k) m, λ j ne. put_elsewhere k j (v ∷ m k) m ne);
  rpoplpush_moves = λ from to m ne. shifted-Move from to (reverse (m from)) m ne refl;
  brpoplpush_moves = λ from to seconds m ne. shifted-Move from to (reverse (m from)) m ne refl;
  lrem_removes = λ k v m.
      removed (
        put_there k (remove_first v (m k)) m,
        λ j ne. put_elsewhere k j (remove_first v (m k)) m ne,
      );
  set_keeps = λ k v j m ne. refl;
  set_ex_keeps = λ k v ttl j m ne. refl;
}

shifted_ok : (from to : Text) (l : List Text) (m : Memory) → is_ok (shifted from to l m).1 ≡ true
shifted_ok from to [] m = refl
shifted_ok from to (x ∷ rest) m = refl

abbrev desk : Text
desk = codes "desk"

-- Two requests wait, the older one last, and a third was being worked on.
abbrev stopped : Memory
stopped =
    put_list (mailbox_pending_key desk) (codes "b" ∷ codes "a" ∷ [])
      (put_list (mailbox_processing_key desk) (codes "c" ∷ []) (λ k. []))

stopped_working : stopped (mailbox_processing_key desk) ≡ codes "c" ∷ []
unfolding mailbox_processing_key mailbox_pending_key text_beq
stopped_working = refl

recover_processing_queue-Recovered_example :
    (m : Memory) × (recover_processing_queue memory 2
        (mailbox_processing_key desk)
        (mailbox_pending_key desk)
        stopped
      ≡ (m, some (ok tt)))
    × Recovered memory memory-Laws
        (mailbox_processing_key desk)
        (mailbox_pending_key desk)
        stopped
        m
recover_processing_queue-Recovered_example =
    recover_processing_queue-Recovered memory memory-Laws (mailbox_processing_key desk)
      (mailbox_pending_key desk) (λ h. pending_ne_processing desk (sym h))
      (λ s. shifted_ok (mailbox_processing_key desk) (mailbox_pending_key desk) _ s) 2 stopped
      (rw stopped_working (omega arith))

abbrev asks : Text → RedisMailboxRequest
asks t = record { request_id = t; target = desk; kind = send_user_message t; created_at = 0 }

abbrev calls : List (Call memory desk)
calls =
    sends (asks (codes "d"))
    ∷ takes
    ∷ sends (asks (codes "d"))
    ∷ acknowledges (codes "a")
    ∷ recovers 3
    ∷ takes
    ∷ []

accepted_are_kept_example :
    total memory memory-Laws desk (codes "d") stopped
      + accepted memory desk (codes "d") calls stopped
    ≤ total memory memory-Laws desk (codes "d") (after_calls memory desk calls stopped)
      + acknowledged memory desk (codes "d") calls
accepted_are_kept_example = accepted_are_kept memory memory-Laws desk (codes "d") calls stopped

-- A mailbox that keeps the messages it has, and fails for one of them.
abbrev mailboxes : Mailboxes
mailboxes = record {
  Mail = List Text;
  send_message = λ t m. (
    t ∷ m,
    if t == codes "c"
        then err (tool_not_found (codes "c"))
        else ok (record { agent = desk; conversation_id = desk; response = t; message_count = 1 }),
  );
  conversation = λ m. (m, err (tool_not_found (codes "c")));
  error_text = λ e. codes "error";
  encode_conversation = λ c. [];
}

abbrev queued : Memory
queued = put_list (mailbox_pending_key desk) (codes "c" ∷ codes "b" ∷ codes "a" ∷ []) (λ k. [])

bridge_rounds_in_order_example :
    ((bridge_rounds memory mailboxes desk 3 queued []).0 (mailbox_pending_key desk) ≡ [])
    × ((bridge_rounds memory mailboxes desk 3 queued []).0 (mailbox_processing_key desk)
        ≡ queued (mailbox_processing_key desk))
    × ((bridge_rounds memory mailboxes desk 3 queued []).1
        ≡ heard_all memory memory-Laws mailboxes desk (codes "a" ∷ codes "b" ∷ codes "c" ∷ []) [])
bridge_rounds_in_order_example =
    bridge_rounds_in_order memory memory-Laws mailboxes desk
      (record {
        pops = λ s. shifted_ok _ _ (reverse (s (mailbox_pending_key desk))) s;
        acks = λ x s. refl;
      })
      (codes "a" ∷ codes "b" ∷ codes "c" ∷ []) queued []
      (put_there (mailbox_pending_key desk) _ (λ k. []))

-- Nobody answers.
remote_sends_end_example :
    (is_some
        (send_remote_message memory
          (λ t m. m)
          (λ t. t + 50)
          1201
          (codes "r")
          desk
          (codes "hi")
          7
          queued).1
      ≡ true)
    × (is_some
          (send_remote_control memory
            (λ t m. m)
            (λ t. t + 50)
            1201
            (codes "r")
            desk
            stop_it
            7
            queued).1
        ≡ true)
remote_sends_end_example =
    remote_sends_end memory (λ t m. m) (λ t. t + 50) (λ t. omega arith) (codes "r") desk
      (codes "hi") stop_it 7 queued
