-- ===== src/Server/Transfer.antt =====
-- The other operations of `SessionManager`: data and half-close from the client, the read loop of a
-- target, the idle sweep and the end.
use github_codespaces_proxy.Base.{
  ℕ, ◌+◌, Bool, true, false, Option, none, some, ◌||◌, not, List, [], ◌∷◌, ltb, if◌then◌else◌,
  Bytes, codes,
}
use github_codespaces_proxy.Protocol.Frame.{decode_data_frame, encode_data_frame}
use github_codespaces_proxy.Protocol.Json.{Doubles, JsonObject}
use github_codespaces_proxy.Base.Store.{deref, update, find_id}
use github_codespaces_proxy.Server.State.{
  Session, socket_written, socket_shut, binary_sent, Net, ServerConfig, Manager, note,
  close_session, finish_close,
}
use github_codespaces_proxy.Server.Connect.{number_field}

abbrev pub touch : ℕ → Session → Session
touch now s = record s { last_active_ms = now }

-- The session of an id, as it stands in the map.
unfoldable pub session_of : ℕ → Manager → Option (ℕ × Session)
unfolding find_id deref
session_of id m = elim (find_id id m.sessions) [
  | none ↦ none
  | some p ↦ elim (deref m.heap p) [ none ↦ none | some s ↦ some (p, s) ]
]

-- A payload for the target of the session; a session without a socket, or one that the client has
-- half-closed, takes none.
unfoldable pub write_target : Net → ℕ → Session → Bytes → Manager → Manager
unfolding note update close_session
write_target net p s payload m =
    if not s.has_socket || s.uplink_closed
    then m
    else (let active = record m { heap = update (touch (net.now_ms m.log)) m.heap p } in
        if net.write_ok m.log p payload
        then note (socket_written p payload) active
        else close_session net p (codes "target write failed") true active)

unfoldable pub handle_data : Net → Bytes → Manager → Manager
unfolding session_of write_target
handle_data net data_ m = if m.closed then m else elim (decode_data_frame data_) [
  | none ↦ m
  | some frame ↦ elim (session_of frame.session_id m) [
    | none ↦ m
    | some (p, s) ↦ write_target net p s frame.payload m
  ]
]

abbrev pub half_closed : ℕ → Session → Session
half_closed now s = record s { uplink_closed = true; last_active_ms = now }

unfoldable pub half_close : Net → ℕ → Session → Manager → Manager
unfolding note update
half_close net p s m =
    let marked = record m { heap = update (half_closed (net.now_ms m.log)) m.heap p } in
    if s.has_socket then note (socket_shut p) marked else marked

unfoldable pub handle_half_close : (dbl : Doubles) → Net → JsonObject dbl.Double → Manager → Manager
unfolding session_of half_close number_field
handle_half_close dbl net msg m =
    if m.closed then m else elim (number_field dbl (codes "sessionId") msg) [
      | none ↦ m
      | some n ↦ elim (session_of (dbl.to_u32 n) m) [
        | none ↦ m
        | some (p, s) ↦ half_close net p s m
      ]
    ]

unfoldable pub handle_close : (dbl : Doubles) → Net → JsonObject dbl.Double → Manager → Manager
unfolding find_id close_session number_field
handle_close dbl net msg m = elim (number_field dbl (codes "sessionId") msg) [
  | none ↦ m
  | some n ↦ elim (find_id (dbl.to_u32 n) m.sessions) [
    | none ↦ m
    | some p ↦ close_session net p (codes "client closed") false m
  ]
]

-- What a read of at most 64 KiB from a target gives.
pub data ReadResult : Type 0 where
  eof : ReadResult
  failed : ReadResult
  chunk : Bytes → ReadResult

unfoldable pub is_idle : ServerConfig → ℕ → Session → Bool
is_idle cfg now s = ltb (s.last_active_ms + cfg.idle_timeout_ms) now

-- The bytes of a target go to the client as one data frame.
unfoldable pub forward : Net → ℕ → Session → Bytes → Manager → Manager × Bool
unfolding note update close_session
forward net p s bytes m =
    let active = record m { heap = update (touch (net.now_ms m.log)) m.heap p } in
    let frame = encode_data_frame s.id bytes in
    if not (net.ws_open m.log)
    then (close_session net p (codes "wss closed") false active, false)
    else if net.binary_ok m.log frame
    then (note (binary_sent frame) active, true)
    else (close_session net p (codes "wss send failed") false active, false)

-- One round of `targetReadLoop`; the Boolean says whether there is another one.
unfoldable pub target_read : Net → ServerConfig → ℕ → ReadResult → Manager → Manager × Bool
unfolding deref close_session is_idle forward
target_read net cfg p r m = if m.stopped then (m, false) else elim (deref m.heap p) [
  | none ↦ (m, false)
  | some s ↦ if not s.has_socket then (m, false) else elim r [
    | eof ↦ (close_session net p (codes "target closed") true m, false)
    | failed ↦
        if is_idle cfg (net.now_ms m.log) s
        then (close_session net p (codes "target idle timeout") true m, false)
        else (m, true)
    | chunk bytes ↦ forward net p s bytes m
  ]
]

-- The sessions of the map that have been idle for too long.
unfoldable pub idle_sessions : ServerConfig → ℕ → List Session → List (ℕ × ℕ) → List ℕ
unfolding deref is_idle
idle_sessions cfg now heap [] = []
idle_sessions cfg now heap ((id, p) ∷ m) =
    let more = idle_sessions cfg now heap m in
    elim (deref heap p) [ none ↦ more | some s ↦ if is_idle cfg now s then p ∷ more else more ]

unfoldable pub close_all : Net → List ℕ → Bytes → Manager → Manager
unfolding close_session
close_all net [] reason m = m
close_all net (p ∷ ps) reason m = close_all net ps reason (close_session net p reason true m)

unfoldable pub sweep_idle : Net → ServerConfig → Manager → Manager
unfolding idle_sessions close_all
sweep_idle net cfg m =
    close_all net (idle_sessions cfg (net.now_ms m.log) m.heap m.sessions) (codes "idle timeout") m

unfoldable pub destroy_each : Net → List (ℕ × ℕ) → Bytes → Manager → Manager
unfolding deref finish_close
destroy_each net [] reason m = m
destroy_each net ((id, p) ∷ all_) reason m =
    destroy_each net all_ reason
      (elim (deref m.heap p) [ none ↦ m | some s ↦ finish_close net p s reason true m ])

-- `destroyAll`, less the joining of the threads. It is one step, though the code sets the flag before it
-- takes the lock that clears the map.
unfoldable pub destroy_all : Net → Bytes → Manager → Manager
unfolding destroy_each
destroy_all net reason m =
    destroy_each net m.sessions reason (record m { closed = true; sessions = [] })

unfoldable pub stop : Net → Manager → Manager
unfolding destroy_all
stop net m =
    if m.stopped then m else destroy_all net (codes "manager stopped") (record m { stopped = true })
