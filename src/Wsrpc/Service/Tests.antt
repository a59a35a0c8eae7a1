-- ===== src/Wsrpc/Service/Tests.antt =====
-- Registering a service, and the theorems on it at this input.
use go_toolkits.Base.{
  ℕ, ◌≡◌, refl, ◌≢◌, Bool, true, false, Option, none, some, List, [], ◌∷◌, ◌++◌, inl, inr, arith,
}
use go_toolkits.Base.Bytes.{Bytes, codes, contains_byte}
use go_toolkits.Base.Assoc.{lookup, bytes_eq}
use go_toolkits.Wsrpc.Service.{
  GoType, pointer, named, Method, Receiver, Services, MethodType, register, get_service,
  suitable_methods, no_method, cut_last_dot,
}
use go_toolkits.Wsrpc.Service.Lookup.{
  Outcome, register-Outcome, get_service-register, registered_name, added_service,
  cut_last_dot-append,
}

abbrev conn_type : GoType
conn_type = pointer (named (codes "github.com/hkjojo/go-toolkits/wsrpc") (codes "Conn"))

-- func (e Echo) Say(c *Conn, s string, reply *string) error, and a method of another shape.
abbrev say : Method ℕ
say = record {
  pkg_path = [];
  name = codes "Say";
  ins =
      named (codes "demo") (codes "Echo")
      ∷ conn_type
      ∷ named [] (codes "string")
      ∷ pointer (named [] (codes "string"))
      ∷ [];
  outs = named [] (codes "error") ∷ [];
  target = 7;
}

abbrev reset_method : Method ℕ
reset_method = record { pkg_path = []; name = codes "Reset"; ins = []; outs = []; target = 8 }

abbrev echo : Receiver ℕ
echo = record { type_name = codes "Echo"; methods = say ∷ reset_method ∷ []; pointer_methods = [] }

abbrev echo_services : Services ℕ
echo_services = (register [] echo [] false).0

registers : register [] echo [] false ≡ (echo_services, none)
unfolding register go_toolkits.Wsrpc.Service.is_exported lookup go_toolkits.Wsrpc.Service.install
    suitable_methods go_toolkits.Wsrpc.Service.add_all_suitable
    go_toolkits.Wsrpc.Service.add_suitable go_toolkits.Wsrpc.Service.suitable
    go_toolkits.Wsrpc.Service.is_conn_type go_toolkits.Base.Bytes.same
    go_toolkits.Wsrpc.Service.is_exported_or_builtin go_toolkits.Wsrpc.Service.is_pointer
    go_toolkits.Wsrpc.Service.is_error go_toolkits.Base.Assoc.insert
registers = refl

register-Outcome_example :
    Outcome [] echo (registered_name echo [] false) (register [] echo [] false)
register-Outcome_example = register-Outcome [] echo [] false

plain : contains_byte (codes "Say") b'.' ≡ false
unfolding contains_byte
plain = refl

get_service-register_example :
    (get_service echo_services (codes "Echo.Say")
      ≡ elim (lookup (codes "Say") (suitable_methods echo.methods)) [
        | none ↦ inr (no_method (codes "Echo.Say"))
        | some t ↦ inl (added_service echo (codes "Echo"), t)
      ])
    × ((j : Bytes)
        → codes "Echo" ≢ j
        → get_service echo_services (j ++ codes ".Say") ≡ get_service [] (j ++ codes ".Say"))
get_service-register_example =
    get_service-register [] echo_services echo [] false (codes "Say") registers plain

cut_last_dot-append_example : cut_last_dot (codes "a.b.Say") ≡ some (codes "a.b", codes "Say")
cut_last_dot-append_example = cut_last_dot-append (codes "a.b") (codes "Say") plain
