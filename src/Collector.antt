-- ===== src/Collector.antt =====
-- collector: a queue of messages that go to a broker. M stands for the messages, with what they are
-- marshalled to, and E for the broker's errors; the tickers are left to call collect at any time.
pub mod History
pub mod Refine
mod Tests
use go_toolkits.Base.{
  ℕ, Bool, true, false, Option, none, some, List, [], ◌∷◌, ◌++◌, ltb, ◌==◌, if◌then◌else◌, length,
}
use go_toolkits.Base.Bytes.{Bytes}

-- endpoint: f() and how often it is called, in nanoseconds.
pub record Endpoint (M : Type 0) : Type 0 where
  pub f : M
  pub collect_interval : ℕ

-- config, the codec aside. Of the broker and the error callback it says whether there is one.
pub record Config (M : Type 0) : Type 0 where
  pub has_broker : Bool
  pub collect_interval : ℕ
  pub topic : Bytes
  pub queue_size : ℕ
  pub has_error_func : Bool
  pub endpoints : List (Endpoint M)

-- What the error callback is given.
pub data Failure (E : Type 0) : Type 0 where
  queue_full : Failure E
  not_published : E → Failure E

-- collector: its queue, whether quit is closed and whether run still goes on, the topics and messages
-- that were handed to the broker, and the calls of the error callback.
pub record Collector (M E : Type 0) : Type 0 where
  pub cfg : Config M
  pub queue : List M
  pub quit_closed : Bool
  pub running : Bool
  pub published : List (Bytes × M)
  pub reported : List (Failure E)

module _ {M : Type 0} where
  -- defaultConfig
  pub default_config : Config M
  default_config = record {
    has_broker = false;
    collect_interval = 60000000000;
    topic = [];
    queue_size = 2048;
    has_error_func = false;
    endpoints = [];
  }

  -- WithTopic
  pub with_topic : Bytes → Config M → Config M
  with_topic topic cfg = record cfg { topic = topic }

  -- WithBroker, of a broker that is not nil.
  pub with_broker : Config M → Config M
  with_broker cfg = record cfg { has_broker = true }

  -- WithInterval
  pub with_interval : ℕ → Config M → Config M
  with_interval d cfg = record cfg { collect_interval = d }

  -- WithEndpoint
  pub with_endpoint : M → Config M → Config M
  with_endpoint f cfg = record cfg {
    endpoints = cfg.endpoints ++ record { f = f; collect_interval = 0 } ∷ [];
  }

  -- WithIntervalEndpoint
  pub with_interval_endpoint : ℕ → M → Config M → Config M
  with_interval_endpoint d f cfg = record cfg {
    endpoints = cfg.endpoints ++ record { f = f; collect_interval = d } ∷ [];
  }

  -- WithErrorCallback, of a callback that is not nil.
  pub with_error_callback : Config M → Config M
  with_error_callback cfg = record cfg { has_error_func = true }

  pub apply_options : List (Config M → Config M) → Config M → Config M
  apply_options [] cfg = cfg
  apply_options (opt ∷ opts) cfg = apply_options opts (opt cfg)

  -- The interval of an endpoint, in runTicker.
  pub interval_of : Config M → Endpoint M → ℕ
  interval_of cfg ep =
      if ep.collect_interval == 0 then cfg.collect_interval else ep.collect_interval

module _ {M E : Type 0} where
  -- newCollector
  pub new_collector : List (Config M → Config M) → Collector M E
  new_collector opts = record {
    cfg = apply_options opts default_config;
    queue = [];
    quit_closed = false;
    running = true;
    published = [];
    reported = [];
  }

  -- push, with whether it answers nil.
  pub push : M → Collector M E → Collector M E × Bool
  push m c =
      if ltb (length c.queue) c.cfg.queue_size
      then (record c { queue = c.queue ++ m ∷ [] }, true)
      else (c, false)

  pub report : Failure E → Collector M E → Collector M E
  report e c = if c.cfg.has_error_func then record c { reported = c.reported ++ e ∷ [] } else c

  -- collect, with whether the message was accepted.
  pub collect : Endpoint M → Collector M E → Collector M E × Bool
  collect ep c =
      let (c', ok) = push ep.f c in if ok then (c', true) else (report queue_full c', false)

  -- stop: quitOnce keeps it from closing quit twice.
  pub stop : Collector M E → Collector M E
  stop c = record c { quit_closed = true }

  -- The case of run for quit.
  pub quit : Collector M E → Collector M E
  quit c = if c.quit_closed then record c { running = false } else c

module _ {M E : Type 0} (broker : Bytes → M → Option E) where
  -- publish of one message; broker says how Publish answers.
  pub publish : M → Collector M E → Collector M E
  publish m c =
      if c.cfg.has_broker
      then (let c' = record c { published = c.published ++ (c.cfg.topic, m) ∷ [] } in
          elim (broker c.cfg.topic m) [ none ↦ c' | some e ↦ report (not_published e) c' ])
      else c

  pub receive : List M → Collector M E → Collector M E
  receive [] c = c
  receive (m ∷ ms) c = publish m (record c { queue = ms })

  -- The case of run for a message: it waits while the queue is empty.
  pub take_next : Collector M E → Collector M E
  take_next c = if c.running then receive c.queue c else c
