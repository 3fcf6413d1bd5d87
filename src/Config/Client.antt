-- ===== src/Config/Client.antt =====
-- `loadConfig` and the options of `main` in src/client/main.cpp, with the files, the environment and the
-- numbers as for the server.
use github_codespaces_proxy.Base.{
  ℕ, Bool, true, false, Option, none, some, ◌||◌, not, List, [], ◌∷◌, if◌then◌else◌, Bytes, codes,
  text_eq,
}
use github_codespaces_proxy.Config.{Values, get_value, parse_config}
use github_codespaces_proxy.Config.Server.{text_or, int_or, u16_or}

pub record ClientSettings : Type 0 where
  pub listen_host : Bytes
  pub listen_port : ℕ
  pub server_url : Bytes
  pub reject_unauthorized : Bool
  pub connect_timeout_ms : ℕ
  pub handshake_timeout_ms : ℕ
  pub reconnect_delay_ms : ℕ
  pub max_reconnect_delay_ms : ℕ
  pub ping_interval_ms : ℕ
  pub max_sessions : ℕ
  pub ca_file : Bytes
  pub half_close_idle_ms : ℕ
  pub update_repo : Bytes
  pub update_enabled : Bool

unfoldable pub client_defaults : ClientSettings
client_defaults = record {
  listen_host = codes "127.0.0.1";
  listen_port = 8080;
  server_url = codes "wss://proxy.example.com/";
  reject_unauthorized = true;
  connect_timeout_ms = 10000;
  handshake_timeout_ms = 15000;
  reconnect_delay_ms = 500;
  max_reconnect_delay_ms = 15000;
  ping_interval_ms = 25000;
  max_sessions = 1024;
  ca_file = [];
  half_close_idle_ms = 3000;
  update_repo = codes "diaoyunxi/github-codespaces-proxy";
  update_enabled = true;
}

pub record ClientEnvironment : Type 0 where
  pub config : Option Bytes
  pub server_url : Option Bytes
  pub listen_port : Option Bytes
  pub listen_host : Option Bytes
  pub update_repo : Option Bytes

-- Every text but "false" stands for true.
unfoldable pub flag_or : Option Bytes → Bool → Bool
flag_or none old = old
flag_or (some new) old = not (text_eq new (codes "false"))

unfoldable pub from_client_values : Values → ClientSettings → ClientSettings
unfolding text_or int_or u16_or flag_or get_value
from_client_values kv c = record c {
  listen_host = text_or (get_value (codes "listenHost") kv) c.listen_host;
  listen_port = u16_or (get_value (codes "listenPort") kv) c.listen_port;
  server_url = text_or (get_value (codes "serverUrl") kv) c.server_url;
  reject_unauthorized = flag_or (get_value (codes "rejectUnauthorized") kv) c.reject_unauthorized;
  connect_timeout_ms = int_or (get_value (codes "connectTimeoutMs") kv) c.connect_timeout_ms;
  handshake_timeout_ms = int_or (get_value (codes "handshakeTimeoutMs") kv) c.handshake_timeout_ms;
  reconnect_delay_ms = int_or (get_value (codes "reconnectDelayMs") kv) c.reconnect_delay_ms;
  max_reconnect_delay_ms =
      int_or (get_value (codes "maxReconnectDelayMs") kv) c.max_reconnect_delay_ms;
  ping_interval_ms = int_or (get_value (codes "pingIntervalMs") kv) c.ping_interval_ms;
  max_sessions = int_or (get_value (codes "maxSessions") kv) c.max_sessions;
  ca_file = text_or (get_value (codes "caFile") kv) c.ca_file;
  half_close_idle_ms = int_or (get_value (codes "halfCloseIdleMs") kv) c.half_close_idle_ms;
  update_repo = text_or (get_value (codes "updateRepo") kv) c.update_repo;
  update_enabled = flag_or (get_value (codes "updateEnabled") kv) c.update_enabled;
}

unfoldable pub from_client_environment : ClientEnvironment → ClientSettings → ClientSettings
unfolding text_or u16_or
from_client_environment env c = record c {
  server_url = text_or env.server_url c.server_url;
  listen_port = u16_or env.listen_port c.listen_port;
  listen_host = text_or env.listen_host c.listen_host;
  update_repo = text_or env.update_repo c.update_repo;
}

-- The function of the client has the text of the server's `parseConfig`.
unfoldable pub parse_config_file : Option Bytes → Values
unfolding parse_config
parse_config_file = parse_config

-- A file that the environment names goes before the given one.
unfoldable pub load_client_config :
    ClientEnvironment → (Bytes → Option Bytes) → Bytes → ClientSettings
unfolding parse_config_file from_client_values from_client_environment text_or
load_client_config env files default_path = from_client_environment env (
    from_client_values (parse_config_file (files (text_or env.config default_path)))
      client_defaults)

pub data ClientStart : Type 0 where
  client_help : ClientStart
  client_run : ClientSettings → ClientStart

-- A port that is no number is 8080.
unfoldable pub read_client_options :
    ClientEnvironment → (Bytes → Option Bytes) → List Bytes → ClientSettings → ClientStart
unfolding load_client_config u16_or
read_client_options env files [] c = client_run c
read_client_options env files (a ∷ []) c =
    if text_eq a (codes "--insecure")
    then client_run (record c { reject_unauthorized = false })
    else if text_eq a (codes "--no-update")
    then client_run (record c { update_enabled = false })
    else if text_eq a (codes "--help") || text_eq a (codes "-h")
    then client_help
    else client_run c
read_client_options env files (a ∷ v ∷ args) c =
    let skipped = read_client_options env files (v ∷ args) c in
    let server = read_client_options env files args (record c { server_url = v }) in
    let port =
      read_client_options env files args (record c { listen_port = u16_or (some v) 8080 }) in
    let host = read_client_options env files args (record c { listen_host = v }) in
    let ca = read_client_options env files args (record c { ca_file = v }) in
    let insecure =
      read_client_options env files (v ∷ args) (record c { reject_unauthorized = false }) in
    let loaded = read_client_options env files args (load_client_config env files v) in
    let still = read_client_options env files (v ∷ args) (record c { update_enabled = false }) in
    let repo = read_client_options env files args (record c { update_repo = v }) in
    if text_eq a (codes "--server")
    then server
    else if text_eq a (codes "--listen-port")
    then port
    else if text_eq a (codes "--listen-host")
    then host
    else if text_eq a (codes "--ca")
    then ca
    else if text_eq a (codes "--insecure")
    then insecure
    else if text_eq a (codes "--config")
    then loaded
    else if text_eq a (codes "--no-update")
    then still
    else if text_eq a (codes "--update-repo")
    then repo
    else if text_eq a (codes "--help") || text_eq a (codes "-h")
    then client_help
    else skipped

unfoldable pub client_start : ClientEnvironment → (Bytes → Option Bytes) → List Bytes → ClientStart
unfolding read_client_options load_client_config
client_start env files args =
    read_client_options env files args (load_client_config env files (codes "config.json"))
