-- ===== src/Cli/Flags.antt =====
-- cli/cli.go: which flags Init reads, and as what.
use go_toolkits.Base.{
  ◌≡◌, refl, subst, Bool, true, false, ◌||◌, Bool-cases, inl, inr, arith, none, List, [], ◌∷◌,
  if◌then◌else◌,
}
use go_toolkits.Base.Bytes.{Bytes, codes, is_empty, same, same_iff}
use go_toolkits.Cli.{
  Flag, string_flag, int_flag, default_server_flags, Context, Parsed, read_flags, with_timeout, act,
  format_strings, seconds,
}

-- Two contexts agree on flags that are read as what they are declared as.
abbrev pub Agree : Context → Context → List Flag → Type 0
Agree c d [] = Unit
Agree c d (string_flag name aliases env value ∷ flags) =
    (c.string name ≡ d.string name) × Agree c d flags
Agree c d (int_flag name env value ∷ flags) = (c.int name ≡ d.int name) × Agree c d flags

-- The flags but one.
abbrev pub but : Bytes → List Flag → List Flag
but n [] = []
but n (string_flag name aliases env value ∷ flags) =
    let rest = but n flags in
    elim (same name n) [ true ↦ rest | false ↦ string_flag name aliases env value ∷ rest ]
but n (int_flag name env value ∷ flags) = int_flag name env value ∷ but n flags

-- The flags that are read: not those of the transport.
abbrev pub read : List Flag
read = but (codes "transport") (but (codes "transport_address") default_server_flags)

-- Whether a string flag and whether an int flag of the name is among the flags.
abbrev declares_string : Bytes → List Flag → Bool
declares_string n [] = false
declares_string n (string_flag name aliases env value ∷ flags) =
    same name n || declares_string n flags
declares_string n (int_flag name env value ∷ flags) = declares_string n flags

abbrev declares_int : Bytes → List Flag → Bool
declares_int n [] = false
declares_int n (string_flag name aliases env value ∷ flags) = declares_int n flags
declares_int n (int_flag name env value ∷ flags) = same name n || declares_int n flags

module _ (c d : Context) where
  string_agrees :
      (flags : List Flag) (n : Bytes)
      → Agree c d flags
      → declares_string n flags ≡ true
      → c.string n ≡ d.string n
  string_agrees [] n a h = cc
  string_agrees (string_flag name aliases env value ∷ flags) n a h =
      elim (Bool-cases (same name n)) [
        | inl e ↦ subst (λ m. c.string m ≡ d.string m) ((same_iff name n).0 e) a.0
        | inr e ↦ string_agrees flags n a.1 (ground arith)
      ]
  string_agrees (int_flag name env value ∷ flags) n a h = string_agrees flags n a.1 h

  int_agrees :
      (flags : List Flag) (n : Bytes)
      → Agree c d flags
      → declares_int n flags ≡ true
      → c.int n ≡ d.int n
  int_agrees [] n a h = cc
  int_agrees (int_flag name env value ∷ flags) n a h = elim (Bool-cases (same name n)) [
    | inl e ↦ subst (λ m. c.int m ≡ d.int m) ((same_iff name n).0 e) a.0
    | inr e ↦ int_agrees flags n a.1 (ground arith)
  ]
  int_agrees (string_flag name aliases env value ∷ flags) n a h = int_agrees flags n a.1 h

  string_at : Agree c d read → (n : Bytes) → declares_string n read ≡ true → c.string n ≡ d.string n
  string_at a n h = string_agrees read n a h

  int_at : Agree c d read → (n : Bytes) → declares_int n read ≡ true → c.int n ≡ d.int n
  int_at a n h = int_agrees read n a h

  read_flags-Agree : Agree c d read → read_flags c ≡ read_flags d
  unfolding read_flags same
  read_flags-Agree a = λ i. record {
    company_name = string_at a (codes "company_name") refl i;
    project_name = string_at a (codes "project_name") refl i;
    server_name = string_at a (codes "server_name") refl i;
    server_env = string_at a (codes "server_env") refl i;
    server_id = string_at a (codes "server_id") refl i;
    replica_id = int_at a (codes "replica_id") refl i;
    client_retries = int_at a (codes "client_retries") refl i;
    client_request_timeout = 0;
    register_ttl = seconds (int_at a (codes "register_ttl") refl i);
    register_internal = seconds (int_at a (codes "register_interval") refl i);
    server_version = string_at a (codes "server_version") refl i;
    server_address = string_at a (codes "server_address") refl i;
    server_advertise = string_at a (codes "server_advertise") refl i;
    broker = string_at a (codes "broker") refl i;
    broker_address = string_at a (codes "broker_address") refl i;
    registry = string_at a (codes "registry") refl i;
    registry_address = string_at a (codes "registry_address") refl i;
    config_address = string_at a (codes "config_address") refl i;
    config_type = string_at a (codes "config_type") refl i;
    config_host = string_at a (codes "config_host") refl i;
    server_domain = string_at a (codes "server_domain") refl i;
    service_name = format_strings (
        string_at a (codes "company_name") refl i
        ∷ string_at a (codes "project_name") refl i
        ∷ string_at a (codes "server_name") refl i
        ∷ []);
  }

-- The Action of Init depends on nothing but the values of declared flags, each read as a string or an
-- int as it is declared; and not on the flags transport and transport_address, which are declared.
pub act-Agree :
    {E : Type 0} (parse_duration : Bytes → Parsed E) (c d : Context)
    → Agree c d read
    → act parse_duration c ≡ act parse_duration d
unfolding act same
act-Agree parse_duration c d a =
    let timeout : c.string (codes "client_request_timeout")
        ≡ d.string (codes "client_request_timeout") =
      string_at c d a _ refl in
    let flags = read_flags-Agree c d a in
    λ i.
      if is_empty (timeout i)
      then (flags i, none)
      else with_timeout parse_duration (parse_duration (timeout i)) (flags i)
