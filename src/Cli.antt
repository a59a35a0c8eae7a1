-- ===== src/Cli.antt =====
-- cli/cli.go: the flags of a server, the Init that reads them, and the names that it makes of them.
-- A string is its bytes. An int and a time.Duration are their representatives below 2 ^ 64.
-- urfave/cli is a parameter: what it reads of a flag, and how its Run ends.
pub mod Names
pub mod Flags
mod Tests
use go_toolkits.Base.{ℕ, ◌*◌, ◌%◌, ◌^◌, Option, none, some, List, [], ◌∷◌, ◌++◌, if◌then◌else◌}
use go_toolkits.Base.Bytes.{Bytes, codes, is_empty}

-- cli.StringFlag and cli.IntFlag: name, aliases (of a string flag), variable of the environment, value.
pub data Flag : Type 0 where
  string_flag : Bytes → List Bytes → Bytes → Bytes → Flag
  int_flag : Bytes → Bytes → ℕ → Flag

-- DefaultServerFlags
abbrev pub default_server_flags : List Flag
default_server_flags =
    string_flag (codes "company_name") [] (codes "COMPANY_NAME") []
    ∷ string_flag (codes "project_name") [] (codes "MICRO_PROJECT_NAME") []
    ∷ string_flag (codes "client_request_timeout") [] (codes "MICRO_CLIENT_REQUEST_TIMEOUT")
        (codes "5s")
    ∷ int_flag (codes "client_retries") (codes "MICRO_CLIENT_RETRIES") 1
    ∷ int_flag (codes "register_ttl") (codes "MICRO_REGISTER_TTL") 60
    ∷ int_flag (codes "register_interval") (codes "MICRO_REGISTER_INTERVAL") 30
    ∷ string_flag (codes "server_name") [] (codes "MICRO_SERVER_NAME") []
    ∷ string_flag (codes "server_env") [] (codes "SERVER_ENV") []
    ∷ string_flag (codes "server_version") [] (codes "MICRO_SERVER_VERSION") []
    ∷ string_flag (codes "server_id") [] (codes "MICRO_SERVER_ID") []
    ∷ int_flag (codes "replica_id") (codes "MICRO_REPLICA_ID") 0
    ∷ string_flag (codes "server_address") [] (codes "MICRO_SERVER_ADDRESS") []
    ∷ string_flag (codes "server_advertise") [] (codes "MICRO_SERVER_ADVERTISE") []
    ∷ string_flag (codes "broker") [] (codes "MICRO_BROKER") []
    ∷ string_flag (codes "broker_address") [] (codes "MICRO_BROKER_ADDRESS") []
    ∷ string_flag (codes "registry") [] (codes "MICRO_REGISTRY") []
    ∷ string_flag (codes "registry_address") [] (codes "MICRO_REGISTRY_ADDRESS") []
    ∷ string_flag (codes "transport") [] (codes "MICRO_TRANSPORT") []
    ∷ string_flag (codes "transport_address") [] (codes "MICRO_TRANSPORT_ADDRESS") []
    ∷ string_flag (codes "config_address") (codes "c" ∷ []) (codes "CONFIG_ADDRESS") []
    ∷ string_flag (codes "config_type") [] (codes "CONFIG_TYPE") []
    ∷ string_flag (codes "config_host") [] (codes "CONFIG_HOST") []
    ∷ string_flag (codes "server_domain") [] (codes "SERVER_DOMAIN") []
    ∷ []

-- A *cli.Context: what its String and Int give for a name.
pub record Context : Type 0 where
  pub string : Bytes → Bytes
  pub int : Bytes → ℕ

-- ServerFlags; the fields of type time.Duration count nanoseconds.
pub record ServerFlags : Type 0 where
  pub company_name : Bytes
  pub project_name : Bytes
  pub server_name : Bytes
  pub server_env : Bytes
  pub server_id : Bytes
  pub replica_id : ℕ
  pub client_retries : ℕ
  pub client_request_timeout : ℕ
  pub register_ttl : ℕ
  pub register_internal : ℕ
  pub server_version : Bytes
  pub server_address : Bytes
  pub server_advertise : Bytes
  pub broker : Bytes
  pub broker_address : Bytes
  pub registry : Bytes
  pub registry_address : Bytes
  pub config_address : Bytes
  pub config_type : Bytes
  pub config_host : Bytes
  pub server_domain : Bytes
  pub service_name : Bytes

-- The serverFlags before Init.
abbrev pub no_flags : ServerFlags
no_flags = record {
  company_name = [];
  project_name = [];
  server_name = [];
  server_env = [];
  server_id = [];
  replica_id = 0;
  client_retries = 0;
  client_request_timeout = 0;
  register_ttl = 0;
  register_internal = 0;
  server_version = [];
  server_address = [];
  server_advertise = [];
  broker = [];
  broker_address = [];
  registry = [];
  registry_address = [];
  config_address = [];
  config_type = [];
  config_host = [];
  server_domain = [];
  service_name = [];
}

-- The loop of FormatStrings, with str.
unfoldable pub format_from : Bytes → List Bytes → Bytes
format_from str [] = str
format_from str (s ∷ strs) =
    let next = if is_empty s then str else if is_empty str then s else str ++ b'-' ∷ s in
    format_from next strs

-- FormatStrings, and ServiceTopic and ServiceName, which call it.
unfoldable pub format_strings : List Bytes → Bytes
format_strings strs = format_from [] strs

-- The end of Prefix and of GetServicePrefix.
abbrev pub dashed : Bytes → Bytes
dashed result = if is_empty result then [] else result ++ b'-' ∷ []

-- Prefix
pub prefix_of : List Bytes → Bytes
prefix_of strs = dashed (format_strings strs)

-- GetServicePrefix
pub get_service_prefix : ServerFlags → Bytes
get_service_prefix flags = dashed flags.service_name

-- time.Duration(n) * time.Second
abbrev pub seconds : ℕ → ℕ
seconds n = n * 1000000000 % 2 ^ 64

-- What the Action of Init reads; ClientRequestTimeout is read behind it.
unfoldable pub read_flags : Context → ServerFlags
read_flags c = record {
  company_name = c.string (codes "company_name");
  project_name = c.string (codes "project_name");
  server_name = c.string (codes "server_name");
  server_env = c.string (codes "server_env");
  server_id = c.string (codes "server_id");
  replica_id = c.int (codes "replica_id");
  client_retries = c.int (codes "client_retries");
  client_request_timeout = 0;
  register_ttl = seconds (c.int (codes "register_ttl"));
  register_internal = seconds (c.int (codes "register_interval"));
  server_version = c.string (codes "server_version");
  server_address = c.string (codes "server_address");
  server_advertise = c.string (codes "server_advertise");
  broker = c.string (codes "broker");
  broker_address = c.string (codes "broker_address");
  registry = c.string (codes "registry");
  registry_address = c.string (codes "registry_address");
  config_address = c.string (codes "config_address");
  config_type = c.string (codes "config_type");
  config_host = c.string (codes "config_host");
  server_domain = c.string (codes "server_domain");
  service_name = format_strings (
      c.string (codes "company_name")
      ∷ c.string (codes "project_name")
      ∷ c.string (codes "server_name")
      ∷ []);
}

-- How the Run of an app ends: with an error, without its Action, as for --help, or with it.
pub data Run (E : Type 0) : Type 0 where
  refuses : E → Run E
  stops : Run E
  acts : Context → Run E

-- Of time.ParseDuration, a duration or an error.
pub data Parsed (E : Type 0) : Type 0 where
  duration : ℕ → Parsed E
  invalid : E → Parsed E

-- GetContextService: what the metadata of the context, if there is one, holds under "service".
unfoldable pub get_context_service : Option (List Bytes) → Bytes
get_context_service none = []
get_context_service (some []) = []
get_context_service (some (v ∷ vs)) = v

-- WithServiceContext: the pairs that are appended to the outgoing metadata.
pub with_service_context : ServerFlags → List (Bytes × Bytes) → List (Bytes × Bytes)
with_service_context flags md = md ++ (codes "service", flags.service_name) ∷ []

module _ {E : Type 0} (parse_duration : Bytes → Parsed E) where
  pub with_timeout : Parsed E → ServerFlags → ServerFlags × Option E
  with_timeout (duration d) flags = (record flags { client_request_timeout = d }, none)
  with_timeout (invalid e) flags = (flags, some e)

  -- The Action of Init.
  pub act : Context → ServerFlags × Option E
  act c =
      let timeout = c.string (codes "client_request_timeout") in
      if is_empty timeout
      then (read_flags c, none)
      else with_timeout (parse_duration timeout) (read_flags c)

  -- Init, with the serverFlags before and behind it.
  pub init : Run E → ServerFlags → ServerFlags × Option E
  init (refuses e) flags = (flags, some e)
  init stops flags = (flags, none)
  init (acts c) flags = act c
