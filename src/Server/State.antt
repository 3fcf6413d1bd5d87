-- ===== src/Server/State.antt =====
-- The state of a `SessionManager`, its messages, and `closeSession`.
-- A `shared_ptr<Session>` is an index into `heap`, so that a thread that still holds a session after
-- it left the map is modelled. The map is kept in the order of the ids, as `std::map` is.
use github_codespaces_proxy.Base.{
  ℕ, Bool, false, Option, none, some, List, [], ◌∷◌, ◌++◌, if◌then◌else◌, Bytes, codes, text_eq,
}
use github_codespaces_proxy.Base.Store.{deref, update, find_id, erase_id}
use github_codespaces_proxy.Protocol.Message.{error_message, closed_message}
use github_codespaces_proxy.Ssrf.Guard.{Lookup}

pub record Session : Type 0 where
  pub id : ℕ
  pub host : Bytes
  pub port : ℕ
  pub mode : Bytes
  pub uplink_closed : Bool
  pub has_socket : Bool
  pub last_active_ms : ℕ

-- What the manager does to its surroundings, in order; a socket goes by its session's index.
-- What is dialed is the text that `connectTo` is given.
pub data Event : Type 0 where
  dialed : Bytes → ℕ → Event
  socket_written : ℕ → Bytes → Event
  socket_shut socket_closed : ℕ → Event
  text_sent binary_sent : Bytes → Event

-- The surroundings, given what was done so far: the clock, DNS, the sockets, the WebSocket.
pub record Net : Type 0 where
  pub now_ms : List Event → ℕ
  pub lookup_all : List Event → Bytes → Lookup
  pub connect_ok : List Event → Bytes → ℕ → Bool
  pub write_ok : List Event → ℕ → Bytes → Bool
  pub ws_open : List Event → Bool
  pub binary_ok : List Event → Bytes → Bool

-- The integers of the configuration; negative ones are left out.
pub record ServerConfig : Type 0 where
  pub idle_timeout_ms : ℕ
  pub max_sessions_per_connection : ℕ
  pub connect_override : Option (Bytes → Bytes → Bytes)

pub record Manager : Type 0 where
  pub heap : List Session
  pub sessions : List (ℕ × ℕ)
  pub closed : Bool
  pub stopped : Bool
  pub log : List Event

unfoldable pub fresh : Manager
fresh = record { heap = []; sessions = []; closed = false; stopped = false; log = [] }

unfoldable pub note : Event → Manager → Manager
note e m = record m { log = m.log ++ e ∷ [] }

-- Only an open WebSocket takes a message; whether it went out is not looked at.
unfoldable pub send_json : Net → Bytes → Manager → Manager
unfolding note
send_json net json m = if net.ws_open m.log then note (text_sent json) m else m

unfoldable pub send_error : Net → ℕ → Bytes → Manager → Manager
unfolding send_json
send_error net id message m = send_json net (error_message id message) m

-- The socket of a session is closed and let go of, if it has one.
unfoldable pub close_socket : ℕ → Session → Manager → Manager
unfolding note update
close_socket p s m =
    if s.has_socket
    then note (socket_closed p)
        (record m { heap = update (λ t. record t { has_socket = false }) m.heap p })
    else m

unfoldable pub finish_close : Net → ℕ → Session → Bytes → Bool → Manager → Manager
unfolding close_socket send_json
finish_close net p s reason notify m =
    let quiet = close_socket p s m in
    if notify then send_json net (closed_message s.id reason) quiet else quiet

-- `closeSession`: the entry is looked up by the id of the session, not by the session itself.
unfoldable pub close_session : Net → ℕ → Bytes → Bool → Manager → Manager
unfolding deref find_id erase_id finish_close
close_session net p reason notify m = elim (deref m.heap p) [
  | none ↦ m
  | some s ↦ elim (find_id s.id m.sessions) [
    | some _ ↦ finish_close net p s reason notify (record m { sessions = erase_id s.id m.sessions })
    | none ↦
        if text_eq reason (codes "manager stopped") then finish_close net p s reason notify m else m
  ]
]
