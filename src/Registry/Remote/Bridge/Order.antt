-- ===== src/Registry/Remote/Bridge/Order.antt =====
-- What a mailbox bridge does with the requests that wait.
use puff.Common.{
  ◌≡◌, ◌≢◌, refl, sym, ap, ◌∙◌, true, Option, none, some, List, [], ◌∷◌, ◌++◌, Text, codes, Result,
  ok, err, is_ok, arith, append_cancel, length, reverse, text_eq, ==-refl,
}
use puff.Registry.Remote.{
  Backend, RedisMailboxRequest, send_user_message, or_redis, mailbox_pending_key,
  mailbox_processing_key, mailbox_reply_key, mailbox_conversation_key, pop_remote_request,
  pop_remote_payload, ack_remote_request, ack_remote_payload, write_remote_reply,
}
use mathlib.Core.List.{reverse-cons}
use puff.Errors.{AgentError}
use puff.Conversation.{Conversation}
use puff.Mailbox.{AgentMessageResponse}
use puff.Registry.Remote.Laws.{
  Laws, Move, moved, nothing, move_unheard, move_failed, Remove, removed, remove_unheard,
  remove_failed, remove_first,
}
use puff.Registry.Remote.Kept.{pending_ne_processing}
use puff.Registry.Remote.Bridge.{
  Mailboxes, stored, store_remote_conversation, reply_to, serve_kind, serve_payload, on_popped,
  bridge_round, bridge_rounds,
}

last_inj : (xs ys : List Text) (x y : Text) → xs ++ x ∷ [] ≡ ys ++ y ∷ [] → (xs ≡ ys) × (x ≡ y)
last_inj [] [] x y h = (refl, cc)
last_inj [] (z ∷ []) x y h = cc
last_inj [] (z ∷ w ∷ ys) x y h = cc
last_inj (z ∷ []) [] x y h = cc
last_inj (z ∷ w ∷ xs) [] x y h = cc
last_inj (z ∷ xs) (w ∷ ys) x y h = let (e, f) = last_inj xs ys x y (cc) in (cc, f)

not_empty : (xs : List Text) (x : Text) → xs ++ x ∷ [] ≢ []
not_empty [] x h = cc
not_empty (y ∷ xs) x h = cc

pending_ne_reply : (key id : Text) → mailbox_pending_key key ≢ mailbox_reply_key id
unfolding mailbox_pending_key mailbox_reply_key
pending_ne_reply key id h = absurd (ground (arith, append_cancel (codes "puff:agents:") h))

pending_ne_conversation : (key : Text) → mailbox_pending_key key ≢ mailbox_conversation_key key
unfolding mailbox_pending_key mailbox_conversation_key
pending_ne_conversation key h = absurd (ground (arith, append_cancel (codes "puff:agents:") h))

processing_ne_reply : (key id : Text) → mailbox_processing_key key ≢ mailbox_reply_key id
unfolding mailbox_processing_key mailbox_reply_key
processing_ne_reply key id h = absurd (ground (arith, append_cancel (codes "puff:agents:") h))

processing_ne_conversation :
    (key : Text) → mailbox_processing_key key ≢ mailbox_conversation_key key
unfolding mailbox_processing_key mailbox_conversation_key
processing_ne_conversation key h = absurd (ground (arith, append_cancel (codes "puff:agents:") h))

module _ (mb : Mailboxes) where
  -- What a message does to a mailbox: a reply, and a look at the conversation if there is one.
  pub replied : mb.Mail × Result AgentError AgentMessageResponse → mb.Mail
  replied (m, ok response) = (mb.conversation m).0
  replied (m, err e) = m

  pub heard : Option RedisMailboxRequest → mb.Mail → mb.Mail
  heard none m = m
  heard (some request) m = elim request.kind [ send_user_message t ↦ replied (mb.send_message t m) ]

module _ (b : Backend) (l : Laws b) (mb : Mailboxes) (key : Text) where
  abbrev waiting : Text
  waiting = mailbox_pending_key key

  abbrev working : Text
  working = mailbox_processing_key key

  -- What the mailbox does for the requests, one after the other.
  pub heard_all : List Text → mb.Mail → mb.Mail
  unfolding heard
  heard_all [] m = m
  heard_all (x ∷ xs) m = heard_all xs (heard mb (b.decode_request x) m)

  -- Neither queue changes.
  abbrev Leaves : b.Store → b.Store → Type 0
  Leaves s s' = (l.items waiting s' ≡ l.items waiting s) × (l.items working s' ≡ l.items working s)

  stored-Leaves :
      (c : Result AgentError Conversation) (s : b.Store) → Leaves s (stored b mb key c s)
  unfolding stored store_remote_conversation
  stored-Leaves (ok c) s = (
    l.set_keeps _ _ waiting s (pending_ne_conversation key),
    l.set_keeps _ _ working s (processing_ne_conversation key),
  )
  stored-Leaves (err e) s = (refl, refl)

  reply_to-Leaves :
      (r : Result AgentError AgentMessageResponse) (s : b.Store) (m : mb.Mail)
      → Leaves s (reply_to b mb key r s m).0 × ((reply_to b mb key r s m).1 ≡ replied mb (m, r))
  unfolding reply_to replied
  reply_to-Leaves (ok response) s m = (stored-Leaves (mb.conversation m).1 s, refl)
  reply_to-Leaves (err e) s m = ((refl, refl), refl)

  serve_kind-Leaves :
      (r : RedisMailboxRequest) (s : b.Store) (m : mb.Mail)
      → Leaves s (serve_kind b mb key r.kind s m).0
        × ((serve_kind b mb key r.kind s m).1 ≡ heard mb (some r) m)
  unfolding serve_kind heard
  serve_kind-Leaves r s m =
      elim r.kind
        as (λ k.
          Leaves s (serve_kind b mb key k s m).0
          × ((serve_kind b mb key k s m).1
              ≡ elim k [ send_user_message t ↦ replied mb (mb.send_message t m) ])) [
                | send_user_message t ↦
                    reply_to-Leaves (mb.send_message t m).1 s (mb.send_message t m).0
              ]

  -- A round takes the last request, and leaves the others.
  record Served (xs : List Text) (x : Text) (s : b.Store) (m : mb.Mail) (r : b.Store × mb.Mail)
      : Type 0 where
    taken : l.items waiting r.0 ≡ xs
    finished : l.items working r.0 ≡ l.items working s
    mail : r.1 ≡ heard mb (b.decode_request x) m

  first_removed : (x : Text) (xs : List Text) → remove_first x (x ∷ xs) ≡ xs
  unfolding remove_first
  first_removed x xs = rw (==-refl x) refl

  acked :
      (xs ws : List Text) (x : Text) (s s' : b.Store) (r : Result Text (Unit {0}))
      → Remove l.items working x s s' r
      → is_ok r ≡ true
      → l.items waiting s ≡ xs
      → l.items working s ≡ x ∷ ws
      → (l.items waiting s' ≡ xs) × (l.items working s' ≡ ws)
  acked xs ws x s s' r (removed (e, o)) h p q =
      (o waiting (pending_ne_processing key) ∙ p, e ∙ rw q (first_removed x ws))
  acked xs ws x s s' r (remove_unheard _ k) h p q = cc
  acked xs ws x s s' r (remove_failed _ k) h p q = cc

  -- The commands of the bridge do not fail.
  pub record Alive : Type 0 where
    pub pops : (s : b.Store) → is_ok (b.brpoplpush waiting working 1 s).1 ≡ true
    pub acks : (x : Text) (s : b.Store) → is_ok (b.lrem working 1 x s).1 ≡ true

  payload_served :
      (xs ws : List Text) (x : Text) (o : Option RedisMailboxRequest) (s : b.Store) (m : mb.Mail)
      → Alive
      → l.items waiting s ≡ xs
      → l.items working s ≡ x ∷ ws
      → (l.items waiting (serve_payload b mb key x o s m).0 ≡ xs)
        × (l.items working (serve_payload b mb key x o s m).0 ≡ ws)
        × ((serve_payload b mb key x o s m).1 ≡ heard mb o m)
  unfolding serve_payload heard ack_remote_request ack_remote_payload write_remote_reply
  payload_served xs ws x none s m a p q =
      let (p1, q1) = acked xs ws x s _ _ (l.lrem_removes working x s) (a.acks x s) p q in
      (p1, q1, refl)
  payload_served xs ws x (some request) s m a p q =
      let ((k, j), e) = serve_kind-Leaves request s m in
      let s1 = (serve_kind b mb key request.kind s m).0 in
      let s2 : b.Store =
        (write_remote_reply b request.request_id (serve_kind b mb key request.kind s m).2 s1).0 in
      let (p1, q1) =
        acked xs ws x s2 _ _ (l.lrem_removes working x s2) (a.acks x s2)
          (l.set_ex_keeps _ _ _ waiting s1 (pending_ne_reply key request.request_id) ∙ k ∙ p)
          (l.set_ex_keeps _ _ _ working s1 (processing_ne_reply key request.request_id) ∙ j ∙ q) in
      (p1, q1, e)

  on_popped-Served :
      (xs : List Text) (x : Text) (s s' : b.Store) (r : Result Text (Option Text)) (m : mb.Mail)
      → Move l.items waiting working s s' r
      → is_ok r ≡ true
      → Alive
      → l.items waiting s ≡ xs ++ x ∷ []
      → Served xs x s m (on_popped b mb key (or_redis r) s' m)
  unfolding on_popped
  on_popped-Served xs x s s' r m (moved ys y mv) h a p =
      let (e, f) = last_inj xs ys x y (sym p ∙ mv.was) in
      let (u, v, w) =
        payload_served xs (l.items working s) y (b.decode_request y) s' m a (mv.left ∙ sym e)
          mv.came in
      record { taken = u; finished = v; mail = w ∙ rw f refl }
  on_popped-Served xs x s s' r m (nothing z k) h a p = absurd (not_empty xs x (sym p ∙ z))
  on_popped-Served xs x s s' r m (move_unheard e ys y mv) h a p = cc
  on_popped-Served xs x s s' r m (move_failed e k) h a p = cc

  bridge_round-Served :
      (xs : List Text) (x : Text) (s : b.Store) (m : mb.Mail)
      → Alive
      → l.items waiting s ≡ xs ++ x ∷ []
      → Served xs x s m (bridge_round b mb key s m)
  unfolding bridge_round pop_remote_request pop_remote_payload
  bridge_round-Served xs x s m a p =
      on_popped-Served xs x s _ _ m
        (l.brpoplpush_moves waiting working 1 s (pending_ne_processing key)) (a.pops s) a p

  -- Where Redis keeps to its manual and the commands of the bridge do not fail, as many rounds of the loop of a mailbox
  -- bridge as there are requests that wait leave none in the pending queue and the processing queue as it was, and
  -- the mailbox has been sent the messages of the requests that can be read, each once, in the order they were
  -- sent in; its conversation was read after each that had a response.
  pub bridge_rounds_in_order :
      Alive
      → (requests : List Text) (s : b.Store) (m : mb.Mail) → l.items waiting s ≡ reverse requests
      → (l.items waiting (bridge_rounds b mb key (length requests) s m).0 ≡ [])
        × (l.items working (bridge_rounds b mb key (length requests) s m).0 ≡ l.items working s)
        × ((bridge_rounds b mb key (length requests) s m).1 ≡ heard_all requests m)
  unfolding bridge_rounds heard_all
  bridge_rounds_in_order a [] s m p = (p, refl, refl)
  bridge_rounds_in_order a (x ∷ xs) s m p =
      let r = bridge_round-Served (reverse xs) x s m a (p ∙ reverse-cons x xs) in
      let (u, v, w) = bridge_rounds_in_order a xs _ (bridge_round b mb key s m).1 r.taken in
      (u, v ∙ r.finished, w ∙ ap (heard_all xs) r.mail)
