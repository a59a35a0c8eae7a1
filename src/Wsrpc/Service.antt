-- ===== src/Wsrpc/Service.antt =====
-- wsrpc/server.go: registering services and finding a method by "Service.Method". Method and type
-- names are ASCII, where unicode.IsUpper asks for A to Z; M stands for what a method calls.
pub mod Lookup
mod Tests
use go_toolkits.Base.{
  ℕ, ◌≡◌, ◌⊎◌, inl, inr, Bool, true, false, not, ◌&&◌, ◌||◌, Option, none, some, List, [], ◌∷◌,
  ◌++◌, ◌==◌, leb, if◌then◌else◌,
}
use go_toolkits.Base.Bytes.{Bytes, codes, same, is_empty}
use go_toolkits.Base.Assoc.{Assoc, bytes_eq, lookup, insert}

-- reflect.Type as far as it is asked: pointers, and types with a package path and a name. Types
-- that are neither, such as slices, have both empty.
pub data GoType : Type 0 where
  pointer : GoType → GoType
  named : Bytes → Bytes → GoType

-- reflect.Method: its PkgPath, name, parameters (the receiver first) and results.
pub record Method (M : Type 0) : Type 0 where
  pub pkg_path : Bytes
  pub name : Bytes
  pub ins : List GoType
  pub outs : List GoType
  pub target : M

-- methodType, and service.
pub record MethodType (M : Type 0) : Type 0 where
  pub arg_type : GoType
  pub reply_type : GoType
  pub method : M

pub record Service (M : Type 0) : Type 0 where
  pub name : Bytes
  pub methods : Assoc Bytes (MethodType M)

-- The value given to Register: the name of its type, behind a pointer if it is one, the methods of
-- its type, and those of a pointer to it.
pub record Receiver (M : Type 0) : Type 0 where
  pub type_name : Bytes
  pub methods : List (Method M)
  pub pointer_methods : List (Method M)

pub data Error : Type 0 where
  no_service_name not_exported already_defined pass_a_pointer no_suitable_methods : Error
  ill_formed no_service no_method : Bytes → Error

-- isExported
pub is_exported : Bytes → Bool
is_exported [] = false
is_exported (c ∷ s) = leb b'A' c && leb c b'Z'

-- isExportedOrBuiltinType
pub is_exported_or_builtin : GoType → Bool
is_exported_or_builtin (pointer t) = is_exported_or_builtin t
is_exported_or_builtin (named path name) = is_exported name || is_empty path

abbrev wsrpc_path : Bytes
wsrpc_path = codes "github.com/hkjojo/go-toolkits/wsrpc"

-- isConnType
pub is_conn_type : GoType → Bool
is_conn_type (pointer (named path name)) = same path wsrpc_path && same name (codes "Conn")
is_conn_type _ = false

is_pointer : GoType → Bool
is_pointer (pointer t) = true
is_pointer _ = false

is_error : GoType → Bool
is_error (named path name) = is_empty path && same name (codes "error")
is_error _ = false

abbrev pub Services : Type 0 → Type 0
Services M = Assoc Bytes (Service M)

-- What stands before and after the last dot, if there is one.
unfoldable pub cut_last_dot : Bytes → Option (Bytes × Bytes)
cut_last_dot [] = none
cut_last_dot (c ∷ s) = elim (cut_last_dot s) [
  | some (a, b) ↦ some (c ∷ a, b)
  | none ↦ if c == b'.' then some ([], s) else none
]

module _ {M : Type 0} where
  -- The tests of suitableMethods on the parameters and results of a method.
  pub suitable : Method M → List GoType → List GoType → Option (MethodType M)
  suitable m (receiver ∷ conn ∷ arg ∷ reply ∷ []) (out ∷ []) =
      if is_conn_type conn
        && is_exported_or_builtin arg
        && is_pointer reply
        && is_exported_or_builtin reply
        && is_error out
      then some (record { arg_type = arg; reply_type = reply; method = m.target })
      else none
  suitable m _ _ = none

  -- The body of the loop of suitableMethods.
  pub add_suitable : Method M → Assoc Bytes (MethodType M) → Assoc Bytes (MethodType M)
  add_suitable m methods =
      if not (is_empty m.pkg_path)
      then methods
      else elim (suitable m m.ins m.outs) [ none ↦ methods | some t ↦ insert m.name t methods ]

  pub add_all_suitable : List (Method M) → Assoc Bytes (MethodType M) → Assoc Bytes (MethodType M)
  add_all_suitable [] methods = methods
  add_all_suitable (m ∷ ms) methods = add_all_suitable ms (add_suitable m methods)

  -- suitableMethods, without its log lines.
  pub suitable_methods : List (Method M) → Assoc Bytes (MethodType M)
  suitable_methods ms = add_all_suitable ms []

  -- Which error a receiver without suitable methods gets.
  abbrev hint : Assoc Bytes (MethodType M) → Error
  hint [] = no_suitable_methods
  hint (_ ∷ _) = pass_a_pointer

  -- register from the point where the methods are installed.
  pub install :
      Services M → Receiver M → Bytes → Assoc Bytes (MethodType M) → Services M × Option Error
  install services rcvr sname [] = (services, some (hint (suitable_methods rcvr.pointer_methods)))
  install services rcvr sname (m ∷ ms) =
      (insert sname (record { name = sname; methods = m ∷ ms }) services, none)

  -- register: the services afterwards, and its error.
  pub register : Services M → Receiver M → Bytes → Bool → Services M × Option Error
  register services rcvr name use_name =
      let sname = if use_name then name else rcvr.type_name in
      if is_empty sname
      then (services, some no_service_name)
      else if not (is_exported sname) && not use_name
      then (services, some not_exported)
      else elim (lookup sname services) [
        | some s ↦ (services, some already_defined)
        | none ↦ install services rcvr sname (suitable_methods rcvr.methods)
      ]

  -- getService
  unfoldable pub get_service : Services M → Bytes → (Service M × MethodType M) ⊎ Error
  get_service services service_method = elim (cut_last_dot service_method) [
    | none ↦ inr (ill_formed service_method)
    | some (service_name, method_name) ↦ elim (lookup service_name services) [
      | none ↦ inr (no_service service_name)
      | some s ↦ elim (lookup method_name s.methods) [
        | none ↦ inr (no_method service_method)
        | some t ↦ inl (s, t)
      ]
    ]
  ]

  method_names : Bytes → Assoc Bytes (MethodType M) → List Bytes
  method_names service [] = []
  method_names service ((method, t) ∷ ms) = (service ++ (b'.' ∷ method)) ∷ method_names service ms

  -- ListMethods
  pub list_methods : Services M → List Bytes
  list_methods [] = []
  list_methods ((k, s) ∷ services) = method_names s.name s.methods ++ list_methods services
