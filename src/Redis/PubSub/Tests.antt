-- ===== src/Redis/PubSub/Tests.antt =====
-- Runs of a client, and the theorems at them. The callbacks are numbers.
use go_toolkits.Base.{
  ℕ, zero, suc, ◌+◌, ◌≤◌, ◌≡◌, refl, sym, ◌∙◌, ap, Bool, true, false, List, [], ◌∷◌, ◌++◌, arith,
  length,
}
use go_toolkits.Base.Bytes.{Bytes, codes}
use go_toolkits.Redis.PubSub.{
  Message, capacity, Client, new_client, Event, receives, loses_connection, pushes, ends, closes,
  subscribes, unsubscribes, run,
}
use go_toolkits.Redis.PubSub.Order.{Sublist, passed, data_of, received, run_in_order}

abbrev news : Bytes → Message
news d = record { channel = codes "news"; data_ = d }

abbrev events : List (Event ℕ)
events =
    subscribes (codes "news") 1 false
    ∷ receives (news (codes "a"))
    ∷ receives (news (codes "b"))
    ∷ pushes
    ∷ unsubscribes (codes "news")
    ∷ pushes
    ∷ []

run_in_order_example :
    let c = run events new_client in
    Sublist (c.processed ++ c.ch) (received events)
    × Sublist (passed c.called) (data_of c.processed)
    × (length c.ch ≤ 4096)
run_in_order_example = run_in_order events

called_by_run : (run events new_client).called ≡ (1, codes "a") ∷ []
unfolding run go_toolkits.Redis.PubSub.step new_client go_toolkits.Redis.PubSub.act
    go_toolkits.Redis.PubSub.subscribe go_toolkits.Redis.PubSub.receive_message
    go_toolkits.Redis.PubSub.push_message go_toolkits.Redis.PubSub.take_from
    go_toolkits.Base.Assoc.lookup go_toolkits.Base.Assoc.insert go_toolkits.Base.Bytes.same
    go_toolkits.Redis.PubSub.unsubscribe go_toolkits.Base.Assoc.remove
called_by_run = refl

abbrev many : ℕ → List Message
many zero = []
many (suc n) = news [] ∷ many n

length-many : (n : ℕ) → length (many n) ≡ n
length-many zero = refl
length-many (suc n) = omega (arith, length-many n)

-- A client on which nothing was closed, with these messages in its channel.
abbrev waiting : List Message → Client ℕ
waiting ms = record {
  ch = ms;
  ch_closed = false;
  done_closed = false;
  subscriptions = [];
  on_connection = [];
  pushing = true;
  receiver = go_toolkits.Redis.PubSub.receiving;
  processed = [];
  called = [];
  panicked = false;
}

abbrev oldest : Message
oldest = news (codes "a")
