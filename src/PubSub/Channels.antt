-- ===== src/PubSub/Channels.antt =====
-- What each event does to who listens where.
use mathlib.Core.Option
use puff.Common.{
  ℕ, ◌≡◌, refl, Bool, true, false, ◌&&◌, Option, none, some, List, [], ◌∷◌, Text, if◌then◌else◌,
  ◌==◌, text_eq, nat_eq, arith, contains, Distinct, Option-cases, Bool-cases, inl, inr,
}
use puff.Common.Table
use puff.Common.Table.{Table, keys, values, get-insert, get-remove, get-update, contains-keys}
use puff.PubSub.{
  PubSubEvent, sub, un_sub, drop, Channels, PubSubClient, Redis, is_empty, add_subscriber,
  remove_subscriber, emptied_by, without, remove_all, drop_subscriber, handle_event,
}

-- The sender of a subscriber of a channel.
abbrev pub sender_in : Option (Table ℕ ℕ) → ℕ → Option ℕ
sender_in none conn = none
sender_in (some v) conn = Table.get conn v

abbrev pub sender_of : Channels → Text → ℕ → Option ℕ
sender_of channels chan conn = sender_in (Table.get chan channels) conn

is_empty-get : (v : Table ℕ ℕ) (conn : ℕ) → is_empty v ≡ true → Table.get conn v ≡ none
unfolding is_empty Table.get
is_empty-get [] conn h = refl
is_empty-get (e ∷ v) conn h = cc

sender_of-add_subscriber :
    (chan : Text) (conn sender : ℕ) (t : Channels) (x : Text) (y : ℕ)
    → sender_of (add_subscriber chan conn sender t).1 x y
      ≡ (if (chan == x) && (conn == y) then some sender else sender_of t x y)
unfolding add_subscriber
sender_of-add_subscriber chan conn sender t x y = elim (Option-cases (Table.get chan t)) [
  | inl e ↦
      rw (e, add_subscriber)
        (unfold Table.get in
          ground (arith, get-insert chan x ((conn, sender) ∷ []) t, text_eq.beq_iff chan x))
  | inr (v, e) ↦
      rw (e, add_subscriber)
        (ground (
          arith,
          get-update chan x (Table.insert conn sender) t,
          get-insert conn y sender v,
          text_eq.beq_iff chan x,
        ))
]

sender_of-remove_subscriber :
    (chan : Text) (conn : ℕ) (t : Channels) (x : Text) (y : ℕ)
    → sender_of (remove_subscriber chan conn t).1 x y
      ≡ (if (chan == x) && (conn == y) then none else sender_of t x y)
unfolding remove_subscriber
sender_of-remove_subscriber chan conn t x y = elim (Option-cases (Table.get chan t)) [
  | inl e ↦ rw (e, remove_subscriber) (ground (arith, text_eq.beq_iff chan x))
  | inr (v, e) ↦
      rw (e, remove_subscriber)
        (elim (Bool-cases (is_empty (Table.remove conn v))) [
          | inl last ↦ rw (last) (
              ground (
                arith,
                get-remove chan x t,
                get-remove conn y v,
                is_empty-get (Table.remove conn v) y last,
                text_eq.beq_iff chan x,
              ))
          | inr more ↦ rw more (
              ground (
                arith,
                get-update chan x (Table.remove conn) t,
                get-remove conn y v,
                text_eq.beq_iff chan x,
              ))
        ])
]

pub get-without :
    (conn : ℕ) (t : Channels) (x : Text)
    → Table.get x (without conn t) ≡ Option.map (Table.remove conn) (Table.get x t)
unfolding without Table.get
get-without conn [] x = refl
get-without conn ((chan, v) ∷ t) x = ground (arith, get-without conn t x)

pub get-remove_all :
    (cs : List Text) (t : Channels) (x : Text)
    → Table.get x (remove_all cs t) ≡ (if contains cs x then none else Table.get x t)
unfolding remove_all
get-remove_all [] t x = refl
get-remove_all (c ∷ cs) t x =
    ground (arith, get-remove_all cs (Table.remove c t) x, get-remove c x t)

-- Whether the last subscriber goes with a connection.
abbrev pub empties : ℕ → Option (Table ℕ ℕ) → Bool
empties conn none = false
empties conn (some v) = Table.has conn v && is_empty (Table.remove conn v)

pub contains-emptied_by :
    (conn : ℕ) (t : Channels) (x : Text)
    → Distinct (keys t)
    → contains (emptied_by conn t) x ≡ empties conn (Table.get x t)
unfolding emptied_by Table.get
contains-emptied_by conn [] x d = refl
contains-emptied_by conn ((chan, v) ∷ t) x (fresh, d) =
    ground (arith, contains-emptied_by conn t x d, contains-keys chan t, text_eq.beq_iff chan x)

sender_of-drop_subscriber :
    (conn : ℕ) (t : Channels) (x : Text) (y : ℕ)
    → Distinct (keys t)
    → sender_of (drop_subscriber conn t).1 x y ≡ (if conn == y then none else sender_of t x y)
unfolding drop_subscriber
sender_of-drop_subscriber conn t x y d = elim (Option-cases (Table.get x t)) [
  | inl e ↦
      ground (arith, get-remove_all (emptied_by conn t) (without conn t) x, get-without conn t x)
  | inr (v, e) ↦ ground (
    arith,
    get-remove_all (emptied_by conn t) (without conn t) x,
    get-without conn t x,
    contains-emptied_by conn t x d,
    is_empty-get (Table.remove conn v) y,
    get-remove conn y v,
  )
]

-- Who listens where after an event.
abbrev pub Subscribers : Type 0
Subscribers = Text → ℕ → Option ℕ

abbrev pub after_event : PubSubEvent → Subscribers → Subscribers
after_event (sub chan conn sender) s x y = if (chan == x) && (conn == y) then some sender else s x y
after_event (un_sub chan conn) s x y = if (chan == x) && (conn == y) then none else s x y
after_event (drop conn) s x y = if conn == y then none else s x y

-- Whatever the connection to Redis answers, `handle_event` adds the subscriber of the channel, or removes
-- it, or removes the dropped connection from all channels, and changes no other subscription.
pub handle_event_refines :
    (redis : Redis) (e : PubSubEvent) (c : redis.PubSub) (client : PubSubClient) (x : Text) (y : ℕ)
    → Distinct (keys client.channels)
    → sender_of (handle_event redis e c client).1.channels x y
      ≡ after_event e (sender_of client.channels) x y
unfolding handle_event
handle_event_refines redis (sub chan conn sender) c client x y d =
    sender_of-add_subscriber chan conn sender client.channels x y
handle_event_refines redis (un_sub chan conn) c client x y d =
    sender_of-remove_subscriber chan conn client.channels x y
handle_event_refines redis (drop conn) c client x y d =
    sender_of-drop_subscriber conn client.channels x y d
