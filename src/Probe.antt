-- ===== src/Probe.antt =====
-- k8sprobe: the registry of health probes and the answer to a request for one of their types. The
-- number of a ProbeType is what its iota gives. C stands for the checkers, is_valid for their method;
-- the HTTP server itself is outside.
pub mod Registry
mod Tests
use go_toolkits.Base.{
  ℕ, zero, suc, Bool, true, false, Option, none, some, List, [], ◌∷◌, ◌++◌, if◌then◌else◌,
}
use go_toolkits.Base.Bytes.{Bytes, codes, same, is_empty}
use go_toolkits.Base.Assoc.{Assoc, number_eq, lookup, insert}

-- ProbeType
abbrev pub liveness_probe : ℕ
liveness_probe = 0

abbrev pub readiness_probe : ℕ
readiness_probe = 1

abbrev pub startup_probe : ℕ
startup_probe = 2

-- ProbeType.String
pub type_string : ℕ → Bytes
type_string zero = codes "live"
type_string (suc zero) = codes "ready"
type_string (suc (suc zero)) = codes "startup"
type_string _ = codes "unknown"

-- strings.Trim(UrlPathValue, "{}") is the name of the path's last segment in the pattern.
abbrev pub path_value : Bytes
path_value = codes "probeType"

-- Manager: the registry, the address, and the pattern that the server handles, if there is one.
pub record Manager (C : Type 0) : Type 0 where
  pub probes : Assoc ℕ (List C)
  pub addr : Bytes
  pub path_prefix : Bytes
  pub pattern_ : Option Bytes

-- What a request is answered: the status and the body.
pub record Response : Type 0 where
  pub status : ℕ
  pub body : Bytes

module _ {C : Type 0} where
  abbrev pub or_empty : Option (List C) → List C
  or_empty none = []
  or_empty (some cs) = cs

  -- initServer
  pub init_server : Manager C → Manager C
  init_server m = if is_empty m.addr then m else record m {
    pattern_ = some (m.path_prefix ++ codes "/" ++ codes "{" ++ path_value ++ codes "}");
  }

  pub apply_options : List (Manager C → Manager C) → Manager C → Manager C
  apply_options [] m = m
  apply_options (opt ∷ opts) m = apply_options opts (opt m)

  -- WithAddress
  pub with_address : Bytes → Manager C → Manager C
  with_address addr m = record m { addr = addr }

  -- NewManager
  pub new_manager : List (Manager C → Manager C) → Manager C
  new_manager opts = init_server (
      apply_options opts (record {
        probes = [];
        addr = codes ":18080";
        path_prefix = codes "/healthz";
        pattern_ = none;
      }))

  -- RegisterProbe
  pub register_probe : ℕ → C → Manager C → Manager C
  register_probe t c m = record m {
    probes = insert t (or_empty (lookup t m.probes) ++ c ∷ []) m.probes;
  }

-- The second half of ServeHTTP.
pub respond : Bool × Bytes → Response
respond (valid, cause) =
    if valid
    then record { status = 200; body = codes "OK" }
    else record { status = 503; body = cause }

module _ {C : Type 0} (is_valid : C → Bool × Bytes) where
  -- The loop of checkProbe.
  pub check_each : List C → Bool × Bytes
  check_each [] = (true, [])
  check_each (c ∷ cs) =
      let (valid, cause) = is_valid c in if valid then check_each cs else (false, cause)

  -- checkProbe
  pub check_probe : ℕ → Manager C → Bool × Bytes
  check_probe t m = check_each (or_empty (lookup t m.probes))

  -- ServeHTTP, of the value of the path; http.Error ends its text with a newline.
  pub serve_http : Bytes → Manager C → Response
  serve_http value m =
      if same value (type_string liveness_probe)
      then respond (check_probe liveness_probe m)
      else if same value (type_string readiness_probe)
      then respond (check_probe readiness_probe m)
      else if same value (type_string startup_probe)
      then respond (check_probe startup_probe m)
      else record { status = 400; body = codes "Invalid probe type" ++ 10 ∷ [] }
