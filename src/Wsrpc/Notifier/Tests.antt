-- ===== src/Wsrpc/Notifier/Tests.antt =====
-- Runs of a notifier, and the theorems at inputs of theirs.
use go_toolkits.Base.{ℕ, ◌≤◌, ◌≡◌, ◌≢◌, refl, true, false, List, [], ◌∷◌, ◌++◌, length}
use go_toolkits.Base.Bytes.{codes}
use go_toolkits.Wsrpc.Notifier.{Notify, Notifier, panicked, capacity, new_notifier, notify}
use go_toolkits.Wsrpc.Notifier.Queue.{Event, notifies, takes, closes, run, accepted_by, run_order}

abbrev price : ℕ → Notify ℕ
price n = record { data_ = n; method = codes "price"; is_arr = false }

abbrev events : List (Event ℕ)
events = notifies (price 1) ∷ notifies (price 2) ∷ takes ∷ closes ∷ notifies (price 3) ∷ []

run_order_example :
    let n = run events new_notifier in
    (n.handed ++ n.sending ≡ accepted_by events new_notifier)
    × (length n.sending ≤ capacity)
    × ((x : Notify ℕ) → (notify x n).1 ≢ panicked)
run_order_example = run_order events

starts_open : (new_notifier {A = ℕ}).is_open ≡ true
unfolding new_notifier
starts_open = refl

abbrev waiting : Notifier ℕ
waiting = record {
  sending = price 1 ∷ price 2 ∷ [];
  is_closed = false;
  is_open = true;
  handed = [];
}
