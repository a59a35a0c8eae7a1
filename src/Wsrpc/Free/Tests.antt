-- ===== src/Wsrpc/Free/Tests.antt =====
-- Two requests, of which one is freed and asked for again.
use go_toolkits.Base.{ℕ, ◌≡◌, refl, none, [], ◌∷◌, Distinct}
use go_toolkits.Wsrpc.Free.{Cell, Memory, get_request, free_request}
use go_toolkits.Wsrpc.Free.Leases.{Leases, gets, Reach, here, next, no_leases, Reach-Distinct}

abbrev blank : ℕ → Cell ℕ
blank p = record { body = 0; next = none }

abbrev first : Leases ℕ
first = record {
  memory = (get_request 0 (no_leases blank).memory).0;
  held = (get_request 0 (no_leases blank).memory).1 ∷ [];
}

first_reached : Reach 0 (no_leases blank) first
first_reached = next here gets

Reach-Distinct_example :
    let (m, p) = get_request 0 first.memory in Distinct (p ∷ first.held) × ((m.cell p).body ≡ 0)
Reach-Distinct_example = Reach-Distinct 0 blank first first_reached

freed_comes_again : (get_request 0 (free_request 0 first.memory)).1 ≡ 0
unfolding get_request go_toolkits.Wsrpc.Free.get_from free_request
freed_comes_again = refl
