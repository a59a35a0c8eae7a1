-- ===== src/Wsrpc/Conn.antt =====
-- wsrpc/conn.go: the close handlers and the data of a connection. A handler is known by a number, D
-- stands for values, where nil is none. Each operation is one step.
pub mod Handlers
mod Tests
use go_toolkits.Base.{ℕ, Bool, true, false, Option, none, some, List, [], ◌∷◌, ◌++◌, if◌then◌else◌}
use go_toolkits.Base.Bytes.{Bytes}
use go_toolkits.Base.Assoc.{Assoc, bytes_eq, lookup, insert, remove}

-- Conn without the codec and the request; `called` are the handlers that were called so far.
pub record Conn (D : Type 0) : Type 0 where
  pub extra_data : Assoc Bytes D
  pub close_handlers : List ℕ
  pub closed : Bool
  pub called : List ℕ

module _ {D : Type 0} where
  -- NewConn
  pub new_conn : Conn D
  new_conn = record { extra_data = []; close_handlers = []; closed = false; called = [] }

  -- ternimating
  pub terminate : Conn D → Conn D
  terminate c = record c {
    closed = true;
    called = c.called ++ c.close_handlers;
    close_handlers = [];
  }

  -- OnClose: a handler that comes after the end is called at once.
  pub on_close : ℕ → Conn D → Conn D
  on_close f c = record c {
    called = if c.closed then c.called ++ f ∷ [] else c.called;
    close_handlers = c.close_handlers ++ f ∷ [];
  }

  -- GetData
  pub get_data : Bytes → Conn D → Option D
  get_data key c = lookup key c.extra_data

  -- SetData
  pub set_data : Bytes → D → Conn D → Conn D
  set_data key v c = record c { extra_data = insert key v c.extra_data }

  -- DelData
  pub del_data : Bytes → Conn D → Conn D
  del_data key c = record c { extra_data = remove key c.extra_data }
