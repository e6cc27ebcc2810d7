-- ===== src/PubSub.antt =====
-- src/databases/pubsub.rs: who listens to which channel, and the listener that keeps one connection to
-- Redis subscribed. The connection is a parameter, with what the Redis documentation says of SUBSCRIBE
-- and UNSUBSCRIBE. A sender of a subscriber's queue is known by a number, and so is a connection id.
pub mod Channels
pub mod Sync
pub mod Listener
use mathlib.Core.Option
use puff.Common.{
  ℕ, ◌≡◌, Bool, true, false, ◌&&◌, not, Option, none, some, List, [], ◌∷◌, ◌++◌, Text, map, filter,
  if◌then◌else◌, ◌==◌, text_eq, nat_eq,
}
use puff.Common.Table
use puff.Common.Table.{Table, keys, values}

pub data PubSubEvent : Type 0 where
  sub : Text → ℕ → ℕ → PubSubEvent
  un_sub : Text → ℕ → PubSubEvent
  drop : ℕ → PubSubEvent

pub record PubSubMessage : Type 0 where
  pub channel : Text
  pub from : ℕ
  pub body : List ℕ

abbrev pub Channels : Type 0
Channels = Table Text (Table ℕ ℕ)

-- The part of `PubSubClient` that changes, with the messages put into the subscribers' queues so far.
pub record PubSubClient : Type 0 where
  pub channels : Channels
  pub delivered : List (ℕ × PubSubMessage)

-- The client that `new_pubsub_async` builds.
abbrev pub new_client : PubSubClient
new_client = record { channels = []; delivered = [] }

-- `is_empty`
unfoldable pub is_empty : Table ℕ ℕ → Bool
is_empty [] = true
is_empty (e ∷ t) = false

-- The channel to subscribe to, if it is new, and the map after the event.
unfoldable pub add_subscriber : Text → ℕ → ℕ → Channels → Option Text × Channels
add_subscriber chan conn sender channels = elim (Table.get chan channels) [
  | none ↦ (some chan, Table.insert chan ((conn, sender) ∷ []) channels)
  | some v ↦ (none, Table.update chan (Table.insert conn sender) channels)
]

-- The channel to unsubscribe from, if nobody is left, and the map after the event.
unfoldable pub remove_subscriber : Text → ℕ → Channels → Option Text × Channels
unfolding is_empty
remove_subscriber chan conn channels = elim (Table.get chan channels) [
  | none ↦ (none, channels)
  | some v ↦
      if is_empty (Table.remove conn v)
      then (some chan, Table.remove chan channels)
      else (none, Table.update chan (Table.remove conn) channels)
]

-- The loop over the channels: those whose last subscriber goes.
unfoldable pub emptied_by : ℕ → Channels → List Text
unfolding is_empty
emptied_by conn [] = []
emptied_by conn ((chan, v) ∷ t) =
    let rest = emptied_by conn t in
    if Table.has conn v && is_empty (Table.remove conn v) then chan ∷ rest else rest

unfoldable pub without : ℕ → Channels → Channels
without conn [] = []
without conn ((chan, v) ∷ t) = (chan, Table.remove conn v) ∷ without conn t

unfoldable pub remove_all : List Text → Channels → Channels
remove_all [] t = t
remove_all (chan ∷ more) t = remove_all more (Table.remove chan t)

unfoldable pub drop_subscriber : ℕ → Channels → List Text × Channels
unfolding emptied_by without remove_all
drop_subscriber conn channels =
    (emptied_by conn channels, remove_all (emptied_by conn channels) (without conn channels))

unfoldable pub clean_up : List ℕ → Table ℕ ℕ → Table ℕ ℕ
clean_up [] v = v
clean_up (conn ∷ more) v = clean_up more (Table.remove conn v)

module _ (alive : ℕ → Bool) where
  -- `failed`: the subscribers whose queue has no receiver any more.
  unfoldable pub failed_of : Table ℕ ℕ → List ℕ
  failed_of [] = []
  failed_of ((conn, sender) ∷ t) =
      let rest = failed_of t in if alive sender then rest else conn ∷ rest

  unfoldable pub sent_to : PubSubMessage → Table ℕ ℕ → List (ℕ × PubSubMessage)
  sent_to msg [] = []
  sent_to msg ((conn, sender) ∷ t) =
      let rest = sent_to msg t in if alive sender then (sender, msg) ∷ rest else rest

  -- `handle_msg` of a payload that `bincode::deserialize` reads, or does not.
  unfoldable pub handle_msg : Option PubSubMessage → PubSubClient → PubSubClient
  unfolding failed_of sent_to clean_up
  handle_msg none client = client
  handle_msg (some msg) client = elim (Table.get msg.channel client.channels) [
    | none ↦ client
    | some subscribers ↦ record {
      channels = Table.update msg.channel (clean_up (failed_of subscribers)) client.channels;
      delivered = client.delivered ++ sent_to msg subscribers;
    }
  ]

-- `redis::aio::PubSub`, as a value that each call returns anew, or an error.
pub record Redis : Type 1 where
  pub PubSub : Type 0
  pub subscribed : PubSub → Text → Bool
  pub get_async_pubsub : Option PubSub
  pub subscribe : Text → PubSub → Option PubSub
  pub unsubscribe : Text → PubSub → Option PubSub
  pub starts_empty : (c : PubSub) (x : Text) → get_async_pubsub ≡ some c → subscribed c x ≡ false
  pub subscribes :
      (chan : Text) (c d : PubSub) (x : Text)
      → subscribe chan c ≡ some d
      → subscribed d x ≡ (if chan == x then true else subscribed c x)
  pub unsubscribes :
      (chan : Text) (c d : PubSub) (x : Text)
      → unsubscribe chan c ≡ some d
      → subscribed d x ≡ (if chan == x then false else subscribed c x)

-- What a turn of the listener's loop takes; `ended` where both streams have ended, which breaks the loop.
pub data Input : Type 0 where
  message : Option PubSubMessage → Input
  event : PubSubEvent → Input
  ended : Input

module _ (redis : Redis) where
  open redis use {PubSub, get_async_pubsub, subscribe, unsubscribe}

  unfoldable pub subscribe_maybe : Option Text → PubSub → Option PubSub
  subscribe_maybe none c = some c
  subscribe_maybe (some chan) c = subscribe chan c

  unfoldable pub unsubscribe_maybe : Option Text → PubSub → Option PubSub
  unsubscribe_maybe none c = some c
  unsubscribe_maybe (some chan) c = unsubscribe chan c

  unfoldable pub subscribe_each : List Text → PubSub → Option PubSub
  subscribe_each [] c = some c
  subscribe_each (chan ∷ more) c = Option.bind (subscribe chan c) (λ d. subscribe_each more d)

  unfoldable pub unsubscribe_each : List Text → PubSub → Option PubSub
  unsubscribe_each [] c = some c
  unsubscribe_each (chan ∷ more) c = Option.bind (unsubscribe chan c) (λ d. unsubscribe_each more d)

  -- `none` is an error of the connection, which ends the listener. The map has changed by then.
  unfoldable pub handle_event : PubSubEvent → PubSub → PubSubClient → Option PubSub × PubSubClient
  unfolding add_subscriber remove_subscriber drop_subscriber subscribe_maybe unsubscribe_maybe
      unsubscribe_each
  handle_event (sub chan conn sender) c client =
      let (maybe_sub, channels) = add_subscriber chan conn sender client.channels in
      (subscribe_maybe maybe_sub c, record client { channels = channels })
  handle_event (un_sub chan conn) c client =
      let (maybe_unsub, channels) = remove_subscriber chan conn client.channels in
      (unsubscribe_maybe maybe_unsub c, record client { channels = channels })
  handle_event (drop conn) c client =
      let (unsubscribed, channels) = drop_subscriber conn client.channels in
      (unsubscribe_each unsubscribed c, record client { channels = channels })

  -- The start of the listener: a new connection, subscribed to every channel of the map.
  unfoldable pub connect : PubSubClient → Option PubSub
  unfolding subscribe_each
  connect client = Option.bind get_async_pubsub (λ c. subscribe_each (keys client.channels) c)

  -- The loop of the listener, up to an error, the end of both streams or the end of the inputs.
  unfoldable pub listen :
      (ℕ → Bool) → List Input → Option PubSub → PubSubClient → Option PubSub × PubSubClient
  unfolding handle_event handle_msg
  listen alive inputs none client = (none, client)
  listen alive [] (some c) client = (some c, client)
  listen alive (ended ∷ inputs) (some c) client = (none, client)
  listen alive (message m ∷ inputs) (some c) client =
      listen alive inputs (some c) (handle_msg alive m client)
  listen alive (event e ∷ inputs) (some c) client =
      let (c', client') = handle_event e c client in listen alive inputs c' client'

  -- One run of the task that `supervised_task` starts again when it ends.
  unfoldable pub session : (ℕ → Bool) → List Input → PubSubClient → Option PubSub × PubSubClient
  unfolding connect listen
  session alive inputs client = listen alive inputs (connect client) client

  unfoldable pub sessions : (ℕ → Bool) → List (List Input) → PubSubClient → PubSubClient
  unfolding session
  sessions alive [] client = client
  sessions alive (inputs ∷ more) client = sessions alive more (session alive inputs client).1
