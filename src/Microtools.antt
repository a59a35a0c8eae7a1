-- ===== src/Microtools.antt =====
-- microtools/cmd.go: the options that InitCmd reads from the flags of go-micro and its own, the names
-- made of them, the service name in a request's metadata, and the VERSION file.
-- go-micro is a parameter: what it reads of a flag, and the Before that it had.
pub mod ServerName
mod Tests
use go_toolkits.Base.{
  ℕ, suc, Bool, Option, none, some, List, [], ◌∷◌, ◌++◌, ◌==◌, if◌then◌else◌, length, drop,
}
use go_toolkits.Base.Bytes.{Bytes, codes, is_empty, has_prefix}
use go_toolkits.Cli.{Parsed, duration, invalid, seconds, dashed, get_context_service}
use go_toolkits.Log.Query.{trim_space}

-- A *cli.Context: what its String, Int and StringSlice give for a name.
pub record Context : Type 0 where
  pub string : Bytes → Bytes
  pub int : Bytes → ℕ
  pub string_slice : Bytes → List Bytes

-- CmdOptions; the fields of type time.Duration count nanoseconds.
pub record CmdOptions : Type 0 where
  pub company_name : Bytes
  pub project_name : Bytes
  pub server_name : Bytes
  pub server_id : Bytes
  pub replica_id : ℕ
  pub client_retries : ℕ
  pub client_request_timeout : ℕ
  pub register_ttl : ℕ
  pub register_internal : ℕ
  pub server_version : Bytes
  pub server_address : Bytes
  pub server_advertise : Bytes
  pub broker : Bytes
  pub broker_address : Bytes
  pub registry : Bytes
  pub registry_address : Bytes
  pub prefered_networks : List Bytes
  pub config_address : Bytes
  pub version : Bytes
  pub environment : Bytes
  pub service_name : Bytes

-- The loop of FormatStrings, with str.
pub format_from : Bytes → List Bytes → Bytes
format_from str [] = str
format_from str (s ∷ strs) =
    let next = if is_empty s then str else if is_empty str then s else str ++ b'-' ∷ s in
    format_from next strs

-- FormatStrings
pub format_strings : List Bytes → Bytes
format_strings strs = format_from [] strs

-- Prefix
pub prefix_of : List Bytes → Bytes
prefix_of strs = dashed (format_strings strs)

-- GetServicePrefix
pub get_service_prefix : CmdOptions → Bytes
get_service_prefix options = dashed options.service_name

-- What the Before of InitCmd reads; what it sets later is empty.
pub read_options : Context → CmdOptions
read_options c = record {
  company_name = c.string (codes "company_name");
  project_name = c.string (codes "project_name");
  server_name = c.string (codes "server_name");
  server_id = c.string (codes "server_id");
  replica_id = c.int (codes "replica_id");
  client_retries = c.int (codes "client_retries");
  client_request_timeout = 0;
  register_ttl = seconds (c.int (codes "register_ttl"));
  register_internal = seconds (c.int (codes "register_interval"));
  server_version = c.string (codes "server_version");
  server_address = c.string (codes "server_address");
  server_advertise = c.string (codes "server_advertise");
  broker = c.string (codes "broker");
  broker_address = c.string (codes "broker_address");
  registry = c.string (codes "registry");
  registry_address = c.string (codes "registry_address");
  prefered_networks = c.string_slice (codes "prefered_networks");
  config_address = c.string (codes "config_address");
  version = [];
  environment = [];
  service_name = format_strings (
      c.string (codes "company_name")
      ∷ c.string (codes "project_name")
      ∷ c.string (codes "server_name")
      ∷ []);
}

-- One line of the VERSION file: version and env so far.
pub read_line : Bytes → Bytes × Bytes → Bytes × Bytes
read_line text (version, env) =
    if has_prefix text (codes "version:")
    then (trim_space (drop 8 text), env)
    else if has_prefix text (codes "env:")
    then (version, trim_space (drop 4 text))
    else (version, env)

pub read_lines : List Bytes → Bytes × Bytes → Bytes × Bytes
read_lines [] found = found
read_lines (text ∷ lines) found = read_lines lines (read_line text found)

-- readVersionInfo, with the lines of the file VERSION, if it can be opened.
pub read_version_info : Option (List Bytes) → Bytes × Bytes
read_version_info none = ([], [])
read_version_info (some lines) = read_lines lines ([], [])

module _ {E : Type 0} (parse_duration : Bytes → Parsed E) (before : Context → Option E) where
  -- The end of the Before of InitCmd: the version, and the Before of go-micro.
  finish : Option (List Bytes) → Context → CmdOptions → CmdOptions × Option E
  finish lines c options =
      let (v, env) = read_version_info lines in
      (record options { version = v; environment = env }, before c)

  with_timeout : Option (List Bytes) → Context → Parsed E → CmdOptions → CmdOptions × Option E
  with_timeout lines c (duration d) options =
      finish lines c (record options { client_request_timeout = d })
  with_timeout lines c (invalid e) options = (options, some e)

  -- The Before of InitCmd, with the lines of the file VERSION.
  pub init_cmd : Option (List Bytes) → Context → CmdOptions × Option E
  init_cmd lines c =
      let timeout = c.string (codes "client_request_timeout") in
      if is_empty timeout
      then finish lines c (read_options c)
      else with_timeout lines c (parse_duration timeout) (read_options c)

-- strings.LastIndex(s, "-"), none for -1.
pub last_dash : Bytes → Option ℕ
last_dash [] = none
last_dash (c ∷ s) = elim (last_dash s) [
  | some i ↦ some (suc i)
  | none ↦ if c == b'-' then some 0 else none
]

pub behind_dash : Bytes → Option ℕ → Bytes
behind_dash s none = s
behind_dash s (some i) = if suc i == length s then [] else drop (suc i) s

-- GetContextServerName, with what the metadata holds under "service", as GetContextService reads it.
pub get_context_server_name : Option (List Bytes) → Bytes
get_context_server_name md =
    let service_name = get_context_service md in
    if is_empty service_name then [] else behind_dash service_name (last_dash service_name)
