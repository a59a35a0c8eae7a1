-- ===== src/Wsrpc/Conn/Tests.antt =====
-- The theorems on the connection at small inputs.
use go_toolkits.Base.{ℕ, false, []}
use go_toolkits.Base.Bytes.{Bytes, codes}
use go_toolkits.Wsrpc.Conn.{Conn}

abbrev fresh : Conn ℕ
fresh = record { extra_data = []; close_handlers = []; closed = false; called = [] }

abbrev user : Bytes
user = codes "user"
