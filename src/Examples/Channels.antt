-- ===== src/Examples/Channels.antt =====
-- Redis as the set of the channels that it sends.
use mathlib.Core.Option
use puff.Common.{
  ℕ, ◌≡◌, refl, sym, ap, Bool, true, false, not, Option, none, some, List, [], ◌∷◌, Text, codes,
  if◌then◌else◌, ◌==◌, text_eq, text_beq, nat_eq,
}
use puff.Common.Table
use puff.Common.Table.{Table, keys}
use puff.PubSub.{
  sub, drop, PubSubMessage, PubSubClient, new_client, Redis, Input, message, event, handle_event,
  handle_msg, session, sessions, connect, listen, subscribe_each, unsubscribe_each, subscribe_maybe,
  unsubscribe_maybe, ended,
}
use puff.PubSub.Sync.{InSync}
use puff.PubSub.Listener.{session-InSync, drop_keeps_dead_channel}

abbrev sends : Text → Option (Text → Bool) → Bool
sends x none = false
sends x (some c) = c x

abbrev redis : Redis
redis = record {
  PubSub = Text → Bool;
  subscribed = λ c. c;
  get_async_pubsub = some (λ x. false);
  subscribe = λ chan c. some (λ x. if chan == x then true else c x);
  unsubscribe = λ chan c. some (λ x. if chan == x then false else c x);
  starts_empty = λ c x h. ap (sends x) (sym h);
  subscribes = λ chan c d x h. ap (sends x) (sym h);
  unsubscribes = λ chan c d x h. ap (sends x) (sym h);
}

-- Only the queue of sender 1 has lost its receiver.
abbrev alive : ℕ → Bool
alive sender = not (sender == 1)

abbrev news : PubSubMessage
news = record { channel = codes "news"; from = 9; body = [] }

abbrev earlier : List (List Input)
earlier = (event (sub (codes "news") 5 1) ∷ ended ∷ []) ∷ []

abbrev inputs : List Input
inputs = event (sub (codes "chat") 6 2) ∷ message (some news) ∷ event (drop 6) ∷ []

abbrev standing :
    (c : Text → Bool) × ((session redis alive inputs (sessions redis alive earlier new_client)).0
      ≡ some c)
unfolding session sessions connect listen handle_event handle_msg subscribe_each unsubscribe_each
    subscribe_maybe unsubscribe_maybe text_beq mathlib.Core.Option.bind Table.get Table.insert
    Table.update Table.remove
standing = (_, refl)

session-InSync_example :
    InSync redis standing.0
      (session redis alive inputs (sessions redis alive earlier new_client)).1.channels
session-InSync_example = session-InSync redis alive earlier inputs standing.0 standing.1

abbrev one_listens : PubSubClient
one_listens = record { channels = (codes "news", (5, 1) ∷ []) ∷ []; delivered = [] }

drop_keeps_dead_channel_example :
    Table.get
      (codes "news")
      (handle_event redis
        (drop 5)
        (λ x. true)
        (handle_msg alive (some news) one_listens)).1.channels
    ≡ some []
unfolding Table.get text_beq
drop_keeps_dead_channel_example =
    drop_keeps_dead_channel redis alive news 5 1 (λ x. true) one_listens (refl, tt) refl refl
