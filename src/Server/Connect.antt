-- ===== src/Server/Connect.antt =====
-- `SessionManager::handleConnect`, cut where another thread can come in between: each stage ends
-- where the code gives the lock back or waits.
use github_codespaces_proxy.Base.{
  ℕ, true, false, Option, none, some, not, List, [], ◌∷◌, ◌++◌, leb, if◌then◌else◌, Bytes, codes,
  text_eq, length,
}
use github_codespaces_proxy.Protocol.Json.{◌>>=◌, Doubles, JsonObject, lookup}
use github_codespaces_proxy.Protocol.Message.{connected_message, error_message}
use github_codespaces_proxy.Ssrf.Guard.{guard_target}
use github_codespaces_proxy.Base.Store.{update, find_id, put_id, erase_id}
use github_codespaces_proxy.Server.State.{
  Session, dialed, Net, ServerConfig, Manager, note, send_json, send_error, close_session,
}

abbrev pub mode_tcp_over_wss : Bytes
mode_tcp_over_wss = codes "tcp-over-wss"

pub record Target : Type 0 where
  pub session_id : ℕ
  pub host : Bytes
  pub port : ℕ
  pub mode : Bytes

-- Where a `connect` stands between two stages: nothing is going on, the checks are passed, the session is in the map,
-- the guard has chosen an address, the socket is connected.
pub data Pending : Type 0 where
  idle : Pending
  checked : Target → Pending
  guarding : ℕ → Target → Pending
  dialing : ℕ → Target → Bytes → Pending
  connected : ℕ → ℕ → Pending

unfoldable pub number_field : (dbl : Doubles) → Bytes → JsonObject dbl.Double → Option dbl.Double
unfolding lookup
number_field dbl key msg = elim (lookup key msg) [
  | none ↦ none
  | some v ↦ if v.is_number then some v.num else none
]

unfoldable pub text_field : (dbl : Doubles) → Bytes → JsonObject dbl.Double → Option Bytes
unfolding lookup
text_field dbl key msg = elim (lookup key msg) [
  | none ↦ none
  | some v ↦ if v.is_string then some v.str else none
]

abbrev pub or_default : Option Bytes → Bytes → Bytes
or_default none d = d
or_default (some t) d = t

-- The fields of the message; the mode has a default.
unfoldable pub connect_target : (dbl : Doubles) → JsonObject dbl.Double → Option Target
unfolding number_field text_field
connect_target dbl msg = do
  id ← number_field dbl (codes "sessionId") msg
  host ← text_field dbl (codes "host") msg
  port ← number_field dbl (codes "port") msg
  some (record {
    session_id = dbl.to_u32 id;
    host = host;
    port = dbl.to_u16 port;
    mode = or_default (text_field dbl (codes "mode") msg) mode_tcp_over_wss;
  })

-- The checks under the first lock, and the mode.
unfoldable pub check_connect : Net → ServerConfig → Target → Manager → Manager × Pending
unfolding send_error find_id
check_connect net cfg t m = if m.closed then (m, idle) else elim (find_id t.session_id m.sessions) [
  | some _ ↦ (send_error net t.session_id (codes "duplicate sessionId") m, idle)
  | none ↦
      if leb cfg.max_sessions_per_connection (length m.sessions)
      then (send_error net t.session_id (codes "per-connection session limit reached") m, idle)
      else if not (text_eq t.mode mode_tcp_over_wss)
      then (send_error net t.session_id (codes "unsupported mode: " ++ t.mode) m, idle)
      else (m, checked t)
]

unfoldable pub begin_connect :
    (dbl : Doubles) → Net → ServerConfig → JsonObject dbl.Double → Manager → Manager × Pending
unfolding connect_target check_connect send_json
begin_connect dbl net cfg msg m = elim (connect_target dbl msg) [
  | none ↦ (send_json net (error_message 0 (codes "invalid connect message")) m, idle)
  | some t ↦ check_connect net cfg t m
]

abbrev pub new_session : Net → Target → Manager → Session
new_session net t m = record {
  id = t.session_id;
  host = t.host;
  port = t.port;
  mode = t.mode;
  uplink_closed = false;
  has_socket = false;
  last_active_ms = net.now_ms m.log;
}

-- The session enters the map.
unfoldable pub register : Net → Target → Manager → Manager × Pending
unfolding put_id
register net t m = (
  record m {
    heap = m.heap ++ new_session net t m ∷ [];
    sessions = put_id t.session_id (length m.heap) m.sessions;
  },
  guarding (length m.heap) t,
)

abbrev pub first_or : List Bytes → Bytes → Bytes
first_or [] host = host
first_or (a ∷ addresses) host = a

abbrev pub override_host : ServerConfig → Bytes → Bytes → Bytes
override_host cfg address host = elim cfg.connect_override [
  | none ↦ address
  | some f ↦ f address host
]

-- The guard's verdict, with the address to connect to.
unfoldable pub guard_connect : Net → ServerConfig → ℕ → Target → Manager → Manager × Pending
unfolding guard_target send_error erase_id
guard_connect net cfg p t m =
    let guard = guard_target t.host (net.lookup_all m.log) in
    let gone = λ (n : Manager). (record n { sessions = erase_id t.session_id n.sessions }) in
    if m.closed
    then (gone m, idle)
    else if not guard.ok
    then (gone (send_error net t.session_id guard.reason m), idle)
    else (m, dialing p t (override_host cfg (first_or guard.addresses t.host) t.host))

abbrev pub attach : ℕ → Session → Session
attach now s = record s { has_socket = true; last_active_ms = now }

-- The call of `TcpSocket::connectTo`, with the text that it is given recorded. `connectTo` resolves that
-- text once more, which is not modelled: whether it gets a connection is a parameter.
unfoldable pub dial : Net → ℕ → Target → Bytes → Manager → Manager × Pending
unfolding note send_error close_session update
dial net p t address m =
    let tried = note (dialed address t.port) m in
    if net.connect_ok m.log address t.port
    then (
      record tried { heap = update (attach (net.now_ms tried.log)) tried.heap p },
      connected p t.session_id,
    )
    else (
      close_session net p (codes "connect failed") false
          (send_error net t.session_id (codes "target socket error: connect failed") tried),
      idle,
    )

abbrev pub drop_socket : Session → Session
drop_socket s = record s { has_socket = false }

-- The last check; then the client hears that the session is up.
unfoldable pub announce : Net → ℕ → ℕ → Manager → Manager
unfolding find_id send_json update
announce net p id m =
    let gone = record m { heap = update drop_socket m.heap p } in
    if m.closed then gone else elim (find_id id m.sessions) [
      | none ↦ gone
      | some _ ↦ send_json net (connected_message id) m
    ]

-- One stage of the `connect` that is under way.
unfoldable pub advance : Net → ServerConfig → Pending → Manager → Manager × Pending
unfolding register guard_connect dial announce
advance net cfg idle m = (m, idle)
advance net cfg (checked t) m = register net t m
advance net cfg (guarding p t) m = guard_connect net cfg p t m
advance net cfg (dialing p t address) m = dial net p t address m
advance net cfg (connected p id) m = (announce net p id m, idle)
