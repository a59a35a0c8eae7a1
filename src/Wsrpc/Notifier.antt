-- ===== src/Wsrpc/Notifier.antt =====
-- wsrpc/notifier.go: the queue of notifications of a connection. A stands for the data. Each
-- operation is one step here, but for Notify: the test of isopen and the sending on the channel,
-- which no mutex holds together, are also apart.
pub mod Queue
mod Tests
use go_toolkits.Base.{
  ℕ, zero, suc, ◌+◌, ◌-◌, Bool, true, false, Option, none, some, List, [], ◌∷◌, ◌++◌, leb, ltb,
  if◌then◌else◌, length,
}
use go_toolkits.Base.Bytes.{Bytes}

-- notify
pub record Notify (A : Type 0) : Type 0 where
  pub data_ : A
  pub method : Bytes
  pub is_arr : Bool

-- Notifier: the channel with whether it is closed, isopen, and what the loop has handed to the
-- connection, by NotifyEx if the flag is set.
pub record Notifier (A : Type 0) : Type 0 where
  pub sending : List (Notify A)
  pub is_closed : Bool
  pub is_open : Bool
  pub handed : List (Notify A)

-- What Notify answers: nil, its two errors, or the panic of a send on a closed channel.
pub data Outcome : Type 0 where
  accepted full not_open panicked : Outcome

-- The capacity of the channel.
abbrev pub capacity : ℕ
capacity = 1000

module _ {A : Type 0} where
  -- NewNotifier
  pub new_notifier : Notifier A
  new_notifier = record { sending = []; is_closed = false; is_open = true; handed = [] }

  -- The select of Notify and NotifyArr.
  pub send : Notify A → Notifier A → Notifier A × Outcome
  send x n =
      if n.is_closed
      then (n, panicked)
      else if ltb (length n.sending) capacity
      then (record n { sending = n.sending ++ x ∷ [] }, accepted)
      else (n, full)

  -- Notify and NotifyArr, by the flag of the notification.
  pub notify : Notify A → Notifier A → Notifier A × Outcome
  notify x n = if n.is_open then send x n else (n, not_open)

  -- Close
  pub close : Notifier A → Notifier A
  close n = if n.is_open then record n { is_closed = true; is_open = false } else n

  pub receive : List (Notify A) → Notifier A → Notifier A
  receive [] n = n
  receive (x ∷ xs) n = record n { sending = xs; handed = n.handed ++ x ∷ [] }

  -- A round of loop: it waits while the channel is empty, and ends once isopen is false.
  pub take_next : Notifier A → Notifier A
  take_next n = if n.is_open then receive n.sending n else n

  -- The loop of Clean with l, the length at its start, that is still to go down.
  pub clean_from : ℕ → List (Notify A) → List (Notify A)
  clean_from zero xs = xs
  clean_from (suc zero) xs = xs
  clean_from (suc (suc l)) [] = []
  clean_from (suc (suc l)) (x ∷ xs) = clean_from (suc l) xs

  -- Clean
  pub clean : Notifier A → Notifier A
  clean n = if n.is_open then record n { sending = clean_from (length n.sending) n.sending } else n
