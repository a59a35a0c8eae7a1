-- ===== src/Redis.antt =====
-- redis/redis.go: the configuration, and the address that a pool dials. Durations are seconds; what
-- redigo and sentinel do with them is outside.
pub mod Address
pub mod Pool
pub mod PubSub
mod Tests
use go_toolkits.Base.{
  ℕ, Bool, true, false, not, ◌&&◌, ◌||◌, Option, none, some, List, [], ◌∷◌, ◌++◌, ltb,
  if◌then◌else◌,
}
use go_toolkits.Base.Bytes.{Bytes, codes, is_empty, has_prefix}

-- An int that may be negative.
pub data ℤ : Type 0 where
  pos negsuc : ℕ → ℤ

pub is_positive : ℤ → Bool
is_positive (pos n) = ltb 0 n
is_positive (negsuc n) = false

-- Config
pub record Config : Type 0 where
  pub master_addr : Bytes
  pub script : Bytes
  pub sentinels : List Bytes
  pub read_only : Bool
  pub debug : Bool
  pub max_active : ℤ
  pub max_idle : ℤ
  pub idle_timeout : ℤ
  pub connect_timeout : ℤ
  pub read_timeout : ℤ
  pub write_timeout : ℤ
  pub tls_skip_verify : Bool

-- defaultConfig
pub default_config : Config
default_config = record {
  master_addr = [];
  script = [];
  sentinels = [];
  read_only = false;
  debug = false;
  max_active = pos 50;
  max_idle = pos 100;
  idle_timeout = pos 120;
  connect_timeout = pos 5;
  read_timeout = pos 5;
  write_timeout = pos 5;
  tls_skip_verify = false;
}

pub or_default : ℤ → ℤ → ℤ
or_default n d = if is_positive n then n else d

-- merge
pub merge : Config → Config → Config
merge c conf = record c {
  max_active = or_default c.max_active conf.max_active;
  max_idle = or_default c.max_idle conf.max_idle;
  idle_timeout = or_default c.idle_timeout conf.idle_timeout;
  connect_timeout = or_default c.connect_timeout conf.connect_timeout;
  read_timeout = or_default c.read_timeout conf.read_timeout;
  write_timeout = or_default c.write_timeout conf.write_timeout;
}

abbrev pub plain_scheme : Bytes
plain_scheme = codes "redis://"

abbrev pub tls_scheme : Bytes
tls_scheme = codes "rediss://"

-- The options of a dial that the address decides.
pub record Dial : Type 0 where
  pub url : Bytes
  pub use_tls : Bool
  pub skip_verify : Bool
  pub connect_timeout : ℤ
  pub read_timeout : ℤ
  pub write_timeout : ℤ

-- The address with its scheme, in New.
pub with_scheme : Bytes → Bytes
with_scheme [] = codes "redis://127.0.0.1:6379"
with_scheme (c ∷ url) =
    if has_prefix (c ∷ url) plain_scheme then c ∷ url else plain_scheme ++ (c ∷ url)

-- New: what the pool dials.
pub new : Config → Dial
new conf =
    let url = with_scheme conf.master_addr in
    let use_tls = has_prefix url tls_scheme in
    record {
      url = url;
      use_tls = use_tls;
      skip_verify = use_tls && conf.tls_skip_verify;
      connect_timeout = conf.connect_timeout;
      read_timeout = conf.read_timeout;
      write_timeout = conf.write_timeout;
    }

-- The loop of NewSentinel over the addresses: they get a scheme, and the test of each is on the text
-- that was given.
pub sentinel_urls : List Bytes → List Bytes
sentinel_urls [] = []
sentinel_urls (v ∷ vs) =
    (if has_prefix v plain_scheme then v else plain_scheme ++ v) ∷ sentinel_urls vs

pub any_tls : List Bytes → Bool
any_tls [] = false
any_tls (v ∷ vs) = has_prefix v tls_scheme || any_tls vs

-- What Init does first: which pool it makes, of the merged configuration.
pub data Choice : Type 0 where
  by_sentinels by_address : Config → Choice
  address_empty : Choice

pub choose : Config → Choice
choose conf =
    let merged = merge conf default_config in
    elim conf.sentinels [
      | _ ∷ _ ↦ by_sentinels merged
      | [] ↦ if is_empty conf.master_addr then address_empty else by_address merged
    ]
