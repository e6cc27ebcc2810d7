-- ===== src/PubSub/Sync.antt =====
-- The channels that the connection to Redis is subscribed to are those of the map.
use mathlib.Core.Option
use puff.Common.{
  ℕ, ◌≡◌, refl, sym, ◌∙◌, ap, Bool, false, ◌||◌, Option, none, some, List, [], ◌∷◌, Text,
  if◌then◌else◌, text_eq, nat_eq, arith, contains, Distinct, Option-cases, Bool-cases, inl, inr,
}
use puff.Common.Table
use puff.Common.Table.{
  Table, keys, values, get-insert, get-remove, get-update, contains-keys, keys-update,
  Distinct-insert, Distinct-remove,
}
use puff.PubSub.{
  PubSubEvent, sub, un_sub, drop, PubSubMessage, Channels, PubSubClient, Redis, is_empty,
  add_subscriber, remove_subscriber, emptied_by, without, remove_all, drop_subscriber, handle_event,
  handle_msg, clean_up, failed_of, subscribe_maybe, unsubscribe_maybe, subscribe_each,
  unsubscribe_each,
}
use puff.PubSub.Channels.{get-remove_all}

Distinct-add_subscriber :
    (chan : Text) (conn sender : ℕ) (t : Channels)
    → Distinct (keys t)
    → Distinct (keys (add_subscriber chan conn sender t).1)
unfolding add_subscriber
Distinct-add_subscriber chan conn sender t d = elim (Option-cases (Table.get chan t)) [
  | inl e ↦ rw (e, add_subscriber) (Distinct-insert chan ((conn, sender) ∷ []) t d)
  | inr (v, e) ↦ rw (e, add_subscriber) (rw (keys-update chan (Table.insert conn sender) t) d)
]

Distinct-remove_subscriber :
    (chan : Text) (conn : ℕ) (t : Channels)
    → Distinct (keys t)
    → Distinct (keys (remove_subscriber chan conn t).1)
unfolding remove_subscriber
Distinct-remove_subscriber chan conn t d = elim (Option-cases (Table.get chan t)) [
  | inl e ↦ rw (e, remove_subscriber) d
  | inr (v, e) ↦
      rw (e, remove_subscriber)
        (elim (Bool-cases (is_empty (Table.remove conn v))) [
          | inl last ↦ rw last (Distinct-remove chan t d)
          | inr more ↦ rw more (rw (keys-update chan (Table.remove conn) t) d)
        ])
]

keys-without : (conn : ℕ) (t : Channels) → keys (without conn t) ≡ keys t
unfolding without
keys-without conn [] = refl
keys-without conn ((chan, v) ∷ t) = ap (◌∷◌ chan) (keys-without conn t)

Distinct-remove_all :
    (cs : List Text) (t : Channels) → Distinct (keys t) → Distinct (keys (remove_all cs t))
unfolding remove_all
Distinct-remove_all [] t d = d
Distinct-remove_all (c ∷ cs) t d = Distinct-remove_all cs (Table.remove c t) (Distinct-remove c t d)

Distinct-drop_subscriber :
    (conn : ℕ) (t : Channels) → Distinct (keys t) → Distinct (keys (drop_subscriber conn t).1)
unfolding drop_subscriber
Distinct-drop_subscriber conn t d =
    Distinct-remove_all (emptied_by conn t) (without conn t) (rw (keys-without conn t) d)

pub keys-handle_msg :
    (alive : ℕ → Bool) (m : Option PubSubMessage) (client : PubSubClient)
    → keys (handle_msg alive m client).channels ≡ keys client.channels
unfolding handle_msg
keys-handle_msg alive none client = refl
keys-handle_msg alive (some m) client = elim (Option-cases (Table.get m.channel client.channels)) [
  | inl e ↦ rw (e, handle_msg) refl
  | inr (v, e) ↦
      rw (e, handle_msg) (keys-update m.channel (clean_up (failed_of alive v)) client.channels)
]

module _ (redis : Redis) where
  -- The connection is subscribed to a channel exactly where the map has it, and the map has it once.
  pub record InSync (c : redis.PubSub) (t : Channels) : Type 0 where
    pub same : (x : Text) → redis.subscribed c x ≡ Table.has x t
    pub once : Distinct (keys t)

  pub has_of_keys : (t u : Channels) (x : Text) → keys t ≡ keys u → Table.has x t ≡ Table.has x u
  has_of_keys t u x e = sym (contains-keys x t) ∙ ap (λ ks. contains ks x) e ∙ contains-keys x u

  InSync-add_subscriber :
      (chan : Text) (conn sender : ℕ) (t : Channels) (c d : redis.PubSub)
      → InSync c t
      → subscribe_maybe redis (add_subscriber chan conn sender t).0 c ≡ some d
      → InSync d (add_subscriber chan conn sender t).1
  unfolding subscribe_maybe add_subscriber
  InSync-add_subscriber chan conn sender t c d s = elim (Option-cases (Table.get chan t)) [
    | inl e ↦
        rw (e, add_subscriber)
          (λ h. record {
            same = λ x. ground (
              arith,
              get-insert chan x ((conn, sender) ∷ []) t,
              redis.subscribes chan c d x,
              s.same x,
            );
            once = Distinct-insert chan ((conn, sender) ∷ []) t s.once;
          })
    | inr (v, e) ↦
        rw (e, add_subscriber)
          (λ h. record {
            same = λ x. ground (
              arith,
              has_of_keys _ t x (keys-update chan (Table.insert conn sender) t),
              s.same x,
            );
            once = rw (keys-update chan (Table.insert conn sender) t) s.once;
          })
  ]

  InSync-remove_subscriber :
      (chan : Text) (conn : ℕ) (t : Channels) (c d : redis.PubSub)
      → InSync c t
      → unsubscribe_maybe redis (remove_subscriber chan conn t).0 c ≡ some d
      → InSync d (remove_subscriber chan conn t).1
  unfolding unsubscribe_maybe remove_subscriber
  InSync-remove_subscriber chan conn t c d s = elim (Option-cases (Table.get chan t)) [
    | inl e ↦
        rw (e, remove_subscriber)
          (λ h. record { same = λ x. ground (arith, s.same x); once = s.once })
    | inr (v, e) ↦
        rw (e, remove_subscriber)
          (elim (Bool-cases (is_empty (Table.remove conn v))) [
            | inl last ↦ rw last (λ h. record {
              same =
                  λ x. ground (arith, get-remove chan x t, redis.unsubscribes chan c d x, s.same x);
              once = Distinct-remove chan t s.once;
            })
            | inr more ↦ rw more (λ h. record {
              same = λ x.
                  ground
                    (arith, has_of_keys _ t x (keys-update chan (Table.remove conn) t), s.same x);
              once = rw (keys-update chan (Table.remove conn) t) s.once;
            })
          ])
  ]

  -- What a run of calls leaves subscribed.
  subscribed-unsubscribe_each :
      (cs : List Text) (c d : redis.PubSub) (x : Text)
      → unsubscribe_each redis cs c ≡ some d
      → redis.subscribed d x ≡ (if contains cs x then false else redis.subscribed c x)
  unfolding unsubscribe_each Option.bind
  subscribed-unsubscribe_each [] c d x h = ground arith
  subscribed-unsubscribe_each (chan ∷ cs) c d x h = elim (Option-cases (redis.unsubscribe chan c)) [
    | inl e ↦ ground arith
    | inr (c', e) ↦
        ground (arith, redis.unsubscribes chan c c' x, subscribed-unsubscribe_each cs c' d x)
  ]

  pub subscribed-subscribe_each :
      (cs : List Text) (c d : redis.PubSub) (x : Text)
      → subscribe_each redis cs c ≡ some d
      → redis.subscribed d x ≡ (contains cs x || redis.subscribed c x)
  unfolding subscribe_each Option.bind
  subscribed-subscribe_each [] c d x h = ground arith
  subscribed-subscribe_each (chan ∷ cs) c d x h = elim (Option-cases (redis.subscribe chan c)) [
    | inl e ↦ ground arith
    | inr (c', e) ↦
        ground (arith, redis.subscribes chan c c' x, subscribed-subscribe_each cs c' d x)
  ]

  InSync-drop_subscriber :
      (conn : ℕ) (t : Channels) (c d : redis.PubSub)
      → InSync c t
      → unsubscribe_each redis (drop_subscriber conn t).0 c ≡ some d
      → InSync d (drop_subscriber conn t).1
  unfolding drop_subscriber
  InSync-drop_subscriber conn t c d s h = record {
    same = λ x. ground (
      arith,
      get-remove_all (emptied_by conn t) (without conn t) x,
      has_of_keys (without conn t) t x (keys-without conn t),
      subscribed-unsubscribe_each (emptied_by conn t) c d x,
      s.same x,
    );
    once = Distinct-drop_subscriber conn t s.once;
  }

  pub handle_event-InSync :
      (e : PubSubEvent) (c d : redis.PubSub) (client : PubSubClient)
      → InSync c client.channels
      → (handle_event redis e c client).0 ≡ some d
      → InSync d (handle_event redis e c client).1.channels
  unfolding handle_event
  handle_event-InSync (sub chan conn sender) c d client s h =
      InSync-add_subscriber chan conn sender client.channels c d s h
  handle_event-InSync (un_sub chan conn) c d client s h =
      InSync-remove_subscriber chan conn client.channels c d s h
  handle_event-InSync (drop conn) c d client s h =
      InSync-drop_subscriber conn client.channels c d s h

  pub handle_event-Distinct :
      (e : PubSubEvent) (c : redis.PubSub) (client : PubSubClient)
      → Distinct (keys client.channels)
      → Distinct (keys (handle_event redis e c client).1.channels)
  unfolding handle_event
  handle_event-Distinct (sub chan conn sender) c client d =
      Distinct-add_subscriber chan conn sender client.channels d
  handle_event-Distinct (un_sub chan conn) c client d =
      Distinct-remove_subscriber chan conn client.channels d
  handle_event-Distinct (drop conn) c client d = Distinct-drop_subscriber conn client.channels d
