-- ===== src/PubSub.antt =====
-- pkg/pubsub/inmemory.go: publish and subscribe within the process. A subscriber is a number, its
-- channel the list of the messages in its buffer; a message is a value, so a copy of it is the message.
-- The context and the store are asked once for each call, and their answers are arguments.
pub mod Delivery
pub mod Buffers
pub mod Members
mod Examples
use nimburion.Base.{
  ℕ, ◌+◌, Text, codes, List, [], ◌∷◌, ◌++◌, Bool, true, false, Option, none, some, ℤ, pos, pos_part,
  leb_ℤ, ltb, ◌==◌, any, is_empty, length, if◌then◌else◌, lookup, insert, remove,
}
use nimburion.Errors.{Err, message}
use nimburion.Effect.{Result, ok, err}

pub record Message : Type 0 where
  pub topic : Text
  pub payload : List ℕ
  pub headers : List (Text × Text)

pub record Subscriber : Type 0 where
  pub closed : Bool
  pub ch : List Message
  pub capacity : ℕ

pub record InMemoryBus : Type 0 where
  pub closed : Bool
  pub subscriber_buffer : ℕ
  pub subscribers : List (Text × List ℕ)
  pub subs : ℕ → Subscriber
  pub next : ℕ

pub bus_closed : Err
bus_closed = message (codes "pubsub bus is closed")

abbrev no_subscriber : Subscriber
no_subscriber = record { closed = false; ch = []; capacity = 0 }

unfoldable pub new_in_memory_bus : ℤ → InMemoryBus
new_in_memory_bus buffer = record {
  closed = false;
  subscriber_buffer = if leb_ℤ buffer (pos 0) then 64 else pos_part buffer;
  subscribers = [];
  subs = λ _. no_subscriber;
  next = 0;
}

abbrev pub some_members : Option (List ℕ) → List ℕ
some_members none = []
some_members (some ids) = ids

abbrev pub members : Text → InMemoryBus → List ℕ
members topic b = some_members (lookup topic b.subscribers)

abbrev pub with_sub : ℕ → Subscriber → InMemoryBus → InMemoryBus
with_sub id s b = record b { subs = λ i. let old = b.subs i in if i == id then s else old }

abbrev pub subscribed : Text → InMemoryBus → InMemoryBus
subscribed topic b =
    let sub : Subscriber = record { closed = false; ch = []; capacity = b.subscriber_buffer } in
    record (with_sub b.next sub b) {
      subscribers = insert topic (b.next ∷ members topic b) b.subscribers;
      next = b.next + 1;
    }

unfoldable pub subscribe : Text → InMemoryBus → Result ℕ × InMemoryBus
unfolding lookup insert
subscribe topic b = if b.closed then (err bus_closed, b) else (ok b.next, subscribed topic b)

-- trySend, on the subscriber's own state.
unfoldable pub sent : Message → Subscriber → Subscriber
sent msg s =
    if s.closed
    then s
    else if ltb (length s.ch) s.capacity
    then record s { ch = s.ch ++ (msg ∷ []) }
    else s

abbrev pub shut : Subscriber → Subscriber
shut s = record s { closed = true }

unfoldable pub try_send : ℕ → Message → InMemoryBus → InMemoryBus
unfolding sent
try_send id msg b = with_sub id (sent msg (b.subs id)) b

unfoldable pub close_subscriber : ℕ → InMemoryBus → InMemoryBus
close_subscriber id b = with_sub id (shut (b.subs id)) b

unfoldable pub send_all : List ℕ → Message → InMemoryBus → InMemoryBus
unfolding try_send
send_all [] msg b = b
send_all (id ∷ ids) msg b = send_all ids msg (try_send id msg b)

-- `done` is the context's error, `appended` the store's answer, none without a store.
unfoldable pub publish : Option Err → Option Err → Message → InMemoryBus → Option Err × InMemoryBus
unfolding send_all lookup
publish (some failure) appended msg b = (some failure, b)
publish none appended msg b = if b.closed then (some bus_closed, b) else elim appended [
  | some failure ↦ (some failure, b)
  | none ↦ (none, send_all (members msg.topic b) msg b)
]

unfoldable pub without : ℕ → List ℕ → List ℕ
without id [] = []
without id (i ∷ ids) = let rest = without id ids in if i == id then rest else i ∷ rest

abbrev pub forgotten : Text → ℕ → List ℕ → InMemoryBus → InMemoryBus
forgotten topic id ids b =
    let rest = without id ids in
    record b {
      subscribers =
          if is_empty rest then remove topic b.subscribers else insert topic rest b.subscribers;
    }

-- What Unsubscribe is given: a subscriber of this bus, one of another in-memory bus, or one of
-- another type. One of another bus is closed there, which does not show here.
pub data Leaver : Type 0 where
  own : ℕ → Leaver
  of_another_bus of_another_type : Leaver

unfoldable pub unsubscribe : Text → Leaver → InMemoryBus → Option Err × InMemoryBus
unfolding without lookup insert remove close_subscriber
unsubscribe topic sub b = if b.closed then (some bus_closed, b) else elim sub [
  | of_another_type ↦ (some (message (codes "invalid subscriber implementation")), b)
  | of_another_bus ↦ (none, b)
  | own id ↦ elim (lookup topic b.subscribers) [
    | none ↦ (none, b)
    | some ids ↦ (none, close_subscriber id (forgotten topic id ids b))
  ]
]

unfoldable pub close_all : List ℕ → InMemoryBus → InMemoryBus
unfolding close_subscriber
close_all [] b = b
close_all (id ∷ ids) b = close_all ids (close_subscriber id b)

unfoldable pub close_topics : List (Text × List ℕ) → InMemoryBus → InMemoryBus
unfolding close_all
close_topics [] b = b
close_topics ((topic, ids) ∷ topics) b = close_topics topics (close_all ids b)

-- The locked section of Close.
unfoldable pub begin_close : InMemoryBus → InMemoryBus
begin_close b = record b { closed = true; subscribers = [] }

-- `store_closed` is the store's answer, none without a store; closing a subscriber never fails.
unfoldable pub close : Option Err → InMemoryBus → Option Err × InMemoryBus
unfolding close_topics begin_close
close store_closed b =
    if b.closed then (none, b) else (store_closed, close_topics b.subscribers (begin_close b))

-- The first message of a channel, for the one who reads it.
unfoldable pub received : ℕ → InMemoryBus → Option Message × InMemoryBus
received id b = elim (b.subs id).ch [
  | [] ↦ (none, b)
  | msg ∷ rest ↦ (some msg, with_sub id (record (b.subs id) { ch = rest }) b)
]
