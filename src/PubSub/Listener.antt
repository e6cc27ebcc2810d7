-- ===== src/PubSub/Listener.antt =====
-- The listener's task over its whole life: connections that fail, and new ones.
use mathlib.Core.Option
use puff.Common.{
  ℕ, ◌≡◌, refl, sym, ◌∙◌, Bool, false, Option, none, some, List, [], ◌∷◌, ==-refl, text_eq, nat_eq,
  arith, Distinct, Option-cases, inl, inr,
}
use puff.Common.Table
use puff.Common.Table.{Table, keys, contains-keys, get-update, get-remove}
use puff.PubSub.{
  drop, PubSubMessage, PubSubClient, new_client, Redis, Input, message, event, ended, handle_event,
  handle_msg, connect, listen, session, sessions, drop_subscriber, emptied_by, without, failed_of,
  clean_up,
}
use puff.PubSub.Channels.{get-without, get-remove_all, contains-emptied_by}
use puff.PubSub.Sync.{
  InSync, has_of_keys, keys-handle_msg, handle_event-InSync, handle_event-Distinct,
  subscribed-subscribe_each,
}

module _ (redis : Redis) (alive : ℕ → Bool) where
  abbrev pub Synced : Option redis.PubSub → PubSubClient → Type 0
  Synced o client = (c : redis.PubSub) → o ≡ some c → InSync redis c client.channels

  handle_msg-InSync :
      (m : Option PubSubMessage) (client : PubSubClient) (c : redis.PubSub)
      → InSync redis c client.channels
      → InSync redis c (handle_msg alive m client).channels
  handle_msg-InSync m client c s = record {
    same = λ x.
        s.same x ∙ sym (has_of_keys redis _ client.channels x (keys-handle_msg alive m client));
    once = rw (keys-handle_msg alive m client) s.once;
  }

  listen-Synced :
      (inputs : List Input) (o : Option redis.PubSub) (client : PubSubClient)
      → Synced o client
      → Synced (listen redis alive inputs o client).0 (listen redis alive inputs o client).1
  unfolding listen
  listen-Synced inputs none client s d h = cc
  listen-Synced [] (some c) client s d h = s d h
  listen-Synced (ended ∷ inputs) (some c) client s d h = cc
  listen-Synced (message m ∷ inputs) (some c) client s d h =
      listen-Synced inputs (some c) (handle_msg alive m client)
        (λ c' e. handle_msg-InSync m client c' (s c' e)) d h
  listen-Synced (event e ∷ inputs) (some c) client s d h =
      listen-Synced inputs (handle_event redis e c client).0 (handle_event redis e c client).1
        (λ c' k. handle_event-InSync redis e c c' client (s c refl) k) d h

  listen-Distinct :
      (inputs : List Input) (o : Option redis.PubSub) (client : PubSubClient)
      → Distinct (keys client.channels)
      → Distinct (keys (listen redis alive inputs o client).1.channels)
  unfolding listen
  listen-Distinct inputs none client d = d
  listen-Distinct [] (some c) client d = d
  listen-Distinct (ended ∷ inputs) (some c) client d = d
  listen-Distinct (message m ∷ inputs) (some c) client d =
      listen-Distinct inputs (some c) (handle_msg alive m client)
        (rw (keys-handle_msg alive m client) d)
  listen-Distinct (event e ∷ inputs) (some c) client d =
      listen-Distinct inputs (handle_event redis e c client).0 (handle_event redis e c client).1
        (handle_event-Distinct redis e c client d)

  connect-Synced :
      (client : PubSubClient)
      → Distinct (keys client.channels)
      → Synced (connect redis client) client
  unfolding connect Option.bind
  connect-Synced client d c h = elim (Option-cases redis.get_async_pubsub) [
    | inl e ↦ ground arith
    | inr (c0, e) ↦ record {
      same = λ x. ground (
        arith,
        redis.starts_empty c0 x,
        subscribed-subscribe_each redis (keys client.channels) c0 c x,
        contains-keys x client.channels,
      );
      once = d;
    }
  ]

  sessions-Distinct :
      (earlier : List (List Input)) (client : PubSubClient)
      → Distinct (keys client.channels)
      → Distinct (keys (sessions redis alive earlier client).channels)
  unfolding sessions session
  sessions-Distinct [] client d = d
  sessions-Distinct (inputs ∷ more) client d =
      sessions-Distinct more (session redis alive inputs client).1
        (listen-Distinct inputs (connect redis client) client d)

  -- After any earlier runs of the listener, ended by errors or not, and any inputs of the present one:
  -- while its connection stands, it is subscribed to exactly the channels in the client's map.
  pub session-InSync :
      (earlier : List (List Input)) (inputs : List Input) (c : redis.PubSub)
      → (session redis alive inputs (sessions redis alive earlier new_client)).0 ≡ some c
      → InSync redis c
          (session redis alive inputs (sessions redis alive earlier new_client)).1.channels
  unfolding session
  session-InSync earlier inputs c h =
      let client = sessions redis alive earlier new_client in
      listen-Synced inputs (connect redis client) client
        (connect-Synced client (sessions-Distinct earlier new_client tt)) c h

  cleaned :
      (conn sender : ℕ)
      → alive sender ≡ false
      → clean_up (failed_of alive ((conn, sender) ∷ [])) ((conn, sender) ∷ []) ≡ []
  unfolding clean_up failed_of Table.remove
  cleaned conn sender dead = rw dead (rw (==-refl conn) refl)

  dead_channel :
      (m : PubSubMessage) (conn sender : ℕ) (client : PubSubClient)
      → Table.get m.channel client.channels ≡ some ((conn, sender) ∷ [])
      → alive sender ≡ false
      → Table.get m.channel (handle_msg alive (some m) client).channels ≡ some []
  unfolding handle_msg
  dead_channel m conn sender client e dead =
      rw (e, handle_msg)
        (ground (
          arith,
          get-update m.channel m.channel (clean_up (failed_of alive ((conn, sender) ∷ [])))
              client.channels,
          ==-refl m.channel,
          cleaned conn sender dead,
        ))

  -- If the last subscriber of a channel has no receiver when a message comes, the channel stays in the
  -- map without subscribers, also when that subscriber's connection is dropped later.
  pub drop_keeps_dead_channel :
      (m : PubSubMessage) (conn sender : ℕ) (c : redis.PubSub) (client : PubSubClient)
      → Distinct (keys client.channels)
      → Table.get m.channel client.channels ≡ some ((conn, sender) ∷ [])
      → alive sender ≡ false
      → Table.get m.channel
          (handle_event redis (drop conn) c (handle_msg alive (some m) client)).1.channels
        ≡ some []
  unfolding handle_event drop_subscriber Table.get Table.remove
  drop_keeps_dead_channel m conn sender c client d e dead =
      let t = (handle_msg alive (some m) client).channels in
      let still = dead_channel m conn sender client e dead in
      let once : Distinct (keys t) = rw (keys-handle_msg alive (some m) client) d in
      ground (
        arith,
        get-remove_all (emptied_by conn t) (without conn t) m.channel,
        get-without conn t m.channel,
        contains-emptied_by conn t m.channel once,
      )
