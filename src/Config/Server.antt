-- ===== src/Config/Server.antt =====
-- `loadConfig` and the options of `main` in src/server/main.cpp. An `int` is given by its unsigned
-- reading of 32 bits, a `size_t` by its 64 bits. The environment and the files are parameters.
use github_codespaces_proxy.Base.{
  ℕ, ◌+◌, ◌-◌, ◌%◌, ◌^◌, Bool, true, false, Option, none, some, ◌&&◌, ◌||◌, not, List, [], ◌∷◌, leb,
  if◌then◌else◌, Bytes, codes, find_char, take, drop, is_empty, text_eq,
}
use github_codespaces_proxy.Util.Stoi.{to_int}
use github_codespaces_proxy.Config.{Values, get_value, parse_config}

pub record Settings : Type 0 where
  pub host : Bytes
  pub port : ℕ
  pub tls_cert : Bytes
  pub tls_key : Bytes
  pub connect_timeout_ms : ℕ
  pub idle_timeout_ms : ℕ
  pub max_sessions_per_connection : ℕ
  pub max_sessions_per_ip : ℕ
  pub high_water_mark : ℕ
  pub low_water_mark : ℕ
  pub connect_override : Option (Bytes → Bytes → Bytes)

unfoldable pub defaults : Settings
defaults = record {
  host = codes "0.0.0.0";
  port = 8443;
  tls_cert = [];
  tls_key = [];
  connect_timeout_ms = 10000;
  idle_timeout_ms = 120000;
  max_sessions_per_connection = 256;
  max_sessions_per_ip = 512;
  high_water_mark = 4194304;
  low_water_mark = 1048576;
  connect_override = none;
}

pub record Environment : Type 0 where
  pub connect_map : Option Bytes
  pub port : Option Bytes
  pub host : Option Bytes
  pub tls_cert : Option Bytes
  pub tls_key : Option Bytes

-- The casts of an `int`.
unfoldable pub to_u16 : ℕ → ℕ
to_u16 n = n % 2 ^ 16

unfoldable pub to_size : ℕ → ℕ
to_size n = if leb (2 ^ 31) n then 2 ^ 64 - 2 ^ 32 + n else n

unfoldable pub text_or : Option Bytes → Bytes → Bytes
text_or none old = old
text_or (some new) old = new

unfoldable pub int_or : Option Bytes → ℕ → ℕ
int_or none old = old
int_or (some new) old = to_int new old

unfoldable pub u16_or : Option Bytes → ℕ → ℕ
unfolding to_u16
u16_or none old = old
u16_or (some new) old = to_u16 (to_int new old)

unfoldable pub size_or : Option Bytes → ℕ → ℕ
unfolding to_size
size_or none old = old
size_or (some new) old = to_size (to_int new old)

unfoldable pub from_values : Values → Settings → Settings
unfolding text_or int_or u16_or size_or get_value
from_values kv c = record c {
  port = u16_or (get_value (codes "port") kv) c.port;
  host = text_or (get_value (codes "host") kv) c.host;
  tls_cert = text_or (get_value (codes "tlsCert") kv) c.tls_cert;
  tls_key = text_or (get_value (codes "tlsKey") kv) c.tls_key;
  connect_timeout_ms = int_or (get_value (codes "connectTimeoutMs") kv) c.connect_timeout_ms;
  idle_timeout_ms = int_or (get_value (codes "idleTimeoutMs") kv) c.idle_timeout_ms;
  max_sessions_per_connection =
      int_or (get_value (codes "maxSessionsPerConnection") kv) c.max_sessions_per_connection;
  max_sessions_per_ip = int_or (get_value (codes "maxSessionsPerIp") kv) c.max_sessions_per_ip;
  high_water_mark = size_or (get_value (codes "wsBufferedHighWaterMark") kv) c.high_water_mark;
  low_water_mark = size_or (get_value (codes "wsBufferedLowWaterMark") kv) c.low_water_mark;
}

-- The override of the tests: one address takes the place of another.
unfoldable pub override_of : Bytes → Option (Bytes → Bytes → Bytes)
override_of spec = elim (find_char b'=' spec) [
  | none ↦ none
  | some eq ↦
      some (λ guarded host. if text_eq guarded (take eq spec) then drop (eq + 1) spec else guarded)
]

unfoldable pub with_override : Option Bytes → Settings → Settings
unfolding override_of
with_override none c = c
with_override (some spec) c = record c { connect_override = override_of spec }

unfoldable pub from_environment : Environment → Settings → Settings
unfolding with_override text_or u16_or
from_environment env c =
    let o = with_override env.connect_map c in
    record o {
      port = u16_or env.port o.port;
      host = text_or env.host o.host;
      tls_cert = text_or env.tls_cert o.tls_cert;
      tls_key = text_or env.tls_key o.tls_key;
    }

unfoldable pub load_config : Environment → Option Bytes → Settings
unfolding from_values from_environment parse_config
load_config env file = from_environment env (from_values (parse_config file) defaults)

-- The help text, or the settings with `--no-tls`.
pub data Start : Type 0 where
  help : Start
  run : Settings → Bool → Start

-- The options, with the files by name; an option that wants a value and is the last is skipped, as
-- are unknown ones.
unfoldable pub read_options :
    Environment → (Bytes → Option Bytes) → List Bytes → Settings → Bool → Start
unfolding load_config u16_or
read_options env files [] c no_tls = run c no_tls
read_options env files (a ∷ []) c no_tls =
    if text_eq a (codes "--no-tls")
    then run c true
    else if text_eq a (codes "--help") || text_eq a (codes "-h")
    then help
    else run c no_tls
read_options env files (a ∷ v ∷ args) c no_tls =
    let skipped = read_options env files (v ∷ args) c no_tls in
    let plain = read_options env files (v ∷ args) c true in
    let port = read_options env files args (record c { port = u16_or (some v) c.port }) no_tls in
    let host = read_options env files args (record c { host = v }) no_tls in
    let cert = read_options env files args (record c { tls_cert = v }) no_tls in
    let key = read_options env files args (record c { tls_key = v }) no_tls in
    let loaded = read_options env files args (load_config env (files v)) no_tls in
    if text_eq a (codes "--port")
    then port
    else if text_eq a (codes "--host")
    then host
    else if text_eq a (codes "--tls-cert")
    then cert
    else if text_eq a (codes "--tls-key")
    then key
    else if text_eq a (codes "--no-tls")
    then plain
    else if text_eq a (codes "--config")
    then loaded
    else if text_eq a (codes "--help") || text_eq a (codes "-h")
    then help
    else skipped

-- Whether the server speaks TLS itself.
unfoldable pub use_tls : Settings → Bool → Bool
use_tls c no_tls = not no_tls && not (is_empty c.tls_cert) && not (is_empty c.tls_key)

-- The start of the program: the file is that of the environment, or config.json.
unfoldable pub start : Environment → (Bytes → Option Bytes) → Option Bytes → List Bytes → Start
unfolding read_options load_config
start env files config_file args =
    read_options env files args
      (load_config env (files (text_or config_file (codes "config.json")))) false
