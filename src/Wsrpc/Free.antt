-- ===== src/Wsrpc/Free.antt =====
-- wsrpc/server.go: the free lists of Request and Response, which are linked through the values
-- themselves. X stands for what a value holds besides its link; each operation is under a mutex, so it
-- is one step.
pub mod Leases
mod Tests
use go_toolkits.Base.{ℕ, suc, Option, none, some, ◌==◌, if◌then◌else◌}

-- A Request or Response in memory: what it holds, and next.
pub record Cell (X : Type 0) : Type 0 where
  pub body : X
  pub next : Option ℕ

-- The memory, the addresses from `fresh` on being unused, and freeReq or freeResp.
pub record Memory (X : Type 0) : Type 0 where
  pub cell : ℕ → Cell X
  pub fresh : ℕ
  pub head : Option ℕ

module _ {X : Type 0} where
  -- *p = c
  pub put : ℕ → Cell X → (ℕ → Cell X) → ℕ → Cell X
  put p c f i = if i == p then c else f i

  -- new(Request), or the first of the free list with its link followed and its value cleared.
  pub get_from : X → Option ℕ → Memory X → Memory X × ℕ
  get_from zero none m = (
    record m {
      cell = put m.fresh (record { body = zero; next = none }) m.cell;
      fresh = suc m.fresh;
    },
    m.fresh,
  )
  get_from zero (some p) m = (
    record m { cell = put p (record { body = zero; next = none }) m.cell; head = (m.cell p).next },
    p,
  )

  -- getRequest, and getResponse.
  pub get_request : X → Memory X → Memory X × ℕ
  get_request zero m = get_from zero m.head m

  pub get_response : X → Memory X → Memory X × ℕ
  get_response zero m = get_from zero m.head m

  -- freeRequest, and freeResponse.
  pub free_request : ℕ → Memory X → Memory X
  free_request p m = record m {
    cell = put p (record { body = (m.cell p).body; next = m.head }) m.cell;
    head = some p;
  }

  pub free_response : ℕ → Memory X → Memory X
  free_response p m = record m {
    cell = put p (record { body = (m.cell p).body; next = m.head }) m.cell;
    head = some p;
  }
