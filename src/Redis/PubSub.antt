-- ===== src/Redis/PubSub.antt =====
-- redis/pubsub.go: a client with its two goroutines, receiveMessages, which fills a channel, and
-- pushMessages, which empties it. What redigo answers comes with the events; F stands for callbacks, of
-- which a call is recorded. A step of a goroutine that may wait is one event, so that every interleaving is a list of
-- events; the pings and what is printed are left out.
pub mod Order
pub mod Losing
mod Tests
use go_toolkits.Base.{
  ℕ, Bool, true, false, not, ◌&&◌, Option, none, some, List, [], ◌∷◌, ◌++◌, ltb, if◌then◌else◌,
  length,
}
use go_toolkits.Base.Bytes.{Bytes, same}
use go_toolkits.Base.Assoc.{Assoc, bytes_eq, lookup, insert, remove}

-- redis.Message
pub record Message : Type 0 where
  pub channel : Bytes
  pub data_ : Bytes

-- The capacity of the channel.
abbrev pub capacity : ℕ
capacity = 4096

-- Where receiveMessages is: at ReceiveWithTimeout; at the receive from the channel that follows where
-- the channel was full, which waits while the channel is empty; or returned.
pub data Receiver : Type 0 where
  receiving taking returned : Receiver

-- PubSubClient: its channel, with whether it is closed; whether doneCh is closed; the callbacks; the
-- channels that the connection is subscribed to; whether pushMessages still runs, and
-- where receiveMessages is. `processed` are
-- the messages that pushMessages has taken, `called` the calls that it has made, and `panicked` tells
-- of a panic of receiveMessages or of Close.
pub record Client (F : Type 0) : Type 0 where
  pub ch : List Message
  pub ch_closed : Bool
  pub done_closed : Bool
  pub subscriptions : Assoc Bytes F
  pub on_connection : List Bytes
  pub pushing : Bool
  pub receiver : Receiver
  pub processed : List Message
  pub called : List (F × Bytes)
  pub panicked : Bool

-- A channel into a list of channels, once.
abbrev pub without : Bytes → List Bytes → List Bytes
without c [] = []
without c (d ∷ ds) = let rest = without c ds in if same d c then rest else d ∷ rest

-- What may happen next; a panic ends the program.
pub data Event (F : Type 0) : Type 0 where
  receives : Message → Event F
  loses_connection : (Bytes → Bool) → Event F
  takes_out pushes ends closes : Event F
  subscribes : Bytes → F → Bool → Event F
  unsubscribes : Bytes → Event F

abbrev refusal : Bool → Option (Unit {0})
refusal true = some tt
refusal false = none

module _ {F : Type 0} where
  -- NewPubSubClient
  pub new_client : Client F
  new_client = record {
    ch = [];
    ch_closed = false;
    done_closed = false;
    subscriptions = [];
    on_connection = [];
    pushing = true;
    receiver = receiving;
    processed = [];
    called = [];
    panicked = false;
  }

  -- The select of receiveMessages at a message: to send on a closed channel panics, and where the
  -- channel is full the default is taken.
  abbrev offer : Message → Client F → Client F
  offer msg c =
      if c.ch_closed
      then record c { panicked = true }
      else if ltb (length c.ch) capacity
      then record c { ch = c.ch ++ msg ∷ [] }
      else record c { receiver = taking }

  abbrev if_receiving : Receiver → Client F → Client F → Client F
  if_receiving receiving c d = d
  if_receiving _ c d = c

  -- receiveMessages at a message.
  pub receive_message : Message → Client F → Client F
  receive_message msg c = if_receiving c.receiver c (offer msg c)

  -- The receive from the channel in the default: it takes the oldest message out, returns from
  -- receiveMessages where the channel is closed and empty, and waits where it is empty.
  abbrev taken_out : List Message → Client F → Client F
  taken_out [] c = if c.ch_closed then record c { receiver = returned } else c
  taken_out (m ∷ ms) c = record c { ch = ms; receiver = receiving }

  abbrev if_taking : Receiver → Client F → Client F → Client F
  if_taking taking c d = d
  if_taking _ c d = c

  pub take_out : Client F → Client F
  take_out c = if_taking c.receiver c (taken_out c.ch c)

  -- The loop of reSubscribe; `accepts` says whether Subscribe succeeds.
  pub subscribe_all : (Bytes → Bool) → Assoc Bytes F → List Bytes
  subscribe_all accepts [] = []
  subscribe_all accepts ((channel, cb) ∷ m) =
      let rest = subscribe_all accepts m in if accepts channel then channel ∷ rest else rest

  -- reSubscribe, on a new connection.
  pub re_subscribe : (Bytes → Bool) → Client F → Client F
  re_subscribe accepts c =
      if_receiving c.receiver c (record c { on_connection = subscribe_all accepts c.subscriptions })

  abbrev call_back : Option F → Message → Client F → Client F
  call_back none msg c = c
  call_back (some cb) msg c = record c { called = c.called ++ (cb, msg.data_) ∷ [] }

  pub take_from : List Message → Client F → Client F
  take_from [] c = c
  take_from (msg ∷ ms) c =
      call_back (lookup msg.channel c.subscriptions) msg
        (record c { ch = ms; processed = c.processed ++ msg ∷ [] })

  -- pushMessages at its channel: it waits while that is empty.
  pub push_message : Client F → Client F
  push_message c = if c.pushing then take_from c.ch c else c

  -- pushMessages at doneCh: it ends, and closes its channel.
  pub end_pushing : Client F → Client F
  end_pushing c =
      if c.pushing && c.done_closed then record c { pushing = false; ch_closed = true } else c

  -- subscribe; err is the error of redigo's Subscribe.
  pub subscribe : {E : Type 0} → Bytes → F → Option E → Client F → Client F × Option E
  subscribe channel cb (some e) c = (c, some e)
  subscribe channel cb none c = (
    record c {
      subscriptions = insert channel cb c.subscriptions;
      on_connection = channel ∷ without channel c.on_connection;
    },
    none,
  )

  -- unsubscribe
  pub unsubscribe : Bytes → Client F → Client F
  unsubscribe channel c = record c {
    subscriptions = remove channel c.subscriptions;
    on_connection = without channel c.on_connection;
  }

  -- Close: to close doneCh twice panics.
  pub close : Client F → Client F
  close c =
      if c.done_closed
      then record c { panicked = true }
      else record c { done_closed = true; on_connection = [] }

  pub act : Event F → Client F → Client F
  act (receives msg) c = receive_message msg c
  act (loses_connection accepts) c = re_subscribe accepts c
  act takes_out c = take_out c
  act pushes c = push_message c
  act ends c = end_pushing c
  act closes c = close c
  act (subscribes channel cb refused) c = (subscribe channel cb (refusal refused) c).0
  act (unsubscribes channel) c = unsubscribe channel c

  pub step : Event F → Client F → Client F
  step e c = if c.panicked then c else act e c

  pub run : List (Event F) → Client F → Client F
  run [] c = c
  run (e ∷ es) c = run es (step e c)
