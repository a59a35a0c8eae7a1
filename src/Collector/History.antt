-- ===== src/Collector/History.antt =====
-- collector: what a queue of messages promises, as a history of the messages that were accepted and a
-- count of those that are gone.
use go_toolkits.Base.{
  ℕ, suc, ◌-◌, Bool, true, false, List, [], ◌∷◌, ◌++◌, ltb, if◌then◌else◌, length,
}
use go_toolkits.Collector.{Endpoint}

-- What may happen to a collector: a Push, a ticker, a round of run for a message or for quit, a Stop.
pub data Event (M : Type 0) : Type 0 where
  pushes : M → Event M
  ticks : Endpoint M → Event M
  takes quits stops : Event M

-- A history: what was accepted, how many of it are gone, whether it is to stop, and whether it goes on.
pub record History (M : Type 0) : Type 0 where
  pub accepted : List M
  pub gone : ℕ
  pub stopping : Bool
  pub going : Bool

module _ {M : Type 0} where
  abbrev pub empty_history : History M
  empty_history = record { accepted = []; gone = 0; stopping = false; going = true }

  -- A message is accepted if fewer than the capacity wait.
  abbrev pub offer : ℕ → M → History M → History M × Bool
  offer capacity m h =
      if ltb (length h.accepted - h.gone) capacity
      then (record h { accepted = h.accepted ++ m ∷ [] }, true)
      else (h, false)

  abbrev pub advance : History M → History M
  advance h =
      if h.going
      then (if ltb h.gone (length h.accepted) then record h { gone = suc h.gone } else h)
      else h

  -- A step of the history, and the answers to a Push or a ticker.
  abbrev pub promised : ℕ → Event M → History M → History M × List Bool
  promised capacity (pushes m) h = let (h', ok) = offer capacity m h in (h', ok ∷ [])
  promised capacity (ticks ep) h = let (h', ok) = offer capacity ep.f h in (h', ok ∷ [])
  promised capacity takes h = (advance h, [])
  promised capacity quits h = ((if h.stopping then record h { going = false } else h), [])
  promised capacity stops h = (record h { stopping = true }, [])

  abbrev pub promise : ℕ → List (Event M) → History M → History M × List Bool
  promise capacity [] h = (h, [])
  promise capacity (e ∷ es) h =
      let (h', bs) = promised capacity e h in let (d, cs) = promise capacity es h' in (d, bs ++ cs)
