-- ===== src/Client/Control.antt =====
-- What `WssTunnel` does with what the server sends, when the connection is lost, and at its end.
pub mod Disconnect
use github_codespaces_proxy.Base.{
  ℕ, zero, suc, Bool, true, false, Option, none, some, ◌&&◌, ◌||◌, not, List, [], ◌∷◌, ◌++◌, leb,
  ◌==◌, if◌then◌else◌, Bytes, codes, text_eq,
}
use github_codespaces_proxy.Base.Store.{deref, update, find_id, erase_id}
use github_codespaces_proxy.Protocol.Frame.{DataFrame, decode_data_frame}
use github_codespaces_proxy.Protocol.Json.{
  Doubles, JsonObject, JsonValue, lookup, parse_control_message,
}
use github_codespaces_proxy.Client.State.{
  SessionState, connecting, open_, closed_, TunnelSession, Event, on_open, on_data, on_close,
  on_error, on_down, Net, Tunnel, note,
}
use github_codespaces_proxy.Client.Sessions.{shut}

unfoldable pub is_connecting : SessionState → Bool
is_connecting connecting = true
is_connecting open_ = false
is_connecting closed_ = false

abbrev pub opened : TunnelSession → TunnelSession
opened s = record s { state = open_ }

unfoldable pub on_connected : ℕ → TunnelSession → Tunnel → Tunnel
unfolding is_connecting note update
on_connected p s t =
    if is_connecting s.state
    then note (on_open p) (record t { heap = update opened t.heap p })
    else t

-- The text of a field, or what stands for it.
unfoldable pub text_or : (dbl : Doubles) → Bytes → Bytes → JsonObject dbl.Double → Bytes
unfolding lookup
text_or dbl key default_ msg = elim (lookup key msg) [
  | none ↦ default_
  | some v ↦ if v.is_string then v.str else default_
]

abbrev pub gone : ℕ → ℕ → Tunnel → Tunnel
gone id p t = record t { heap = update shut t.heap p; sessions = erase_id id t.sessions }

unfoldable pub on_message :
    (dbl : Doubles) → ℕ → ℕ → TunnelSession → Bytes → JsonObject dbl.Double → Tunnel → Tunnel
unfolding on_connected text_or note update erase_id
on_message dbl id p s type msg t =
    if text_eq type (codes "connected")
    then on_connected p s t
    else if text_eq type (codes "close")
    then note (on_close p (text_or dbl (codes "reason") (codes "server closed") msg)) (gone id p t)
    else if text_eq type (codes "error")
    then (let message = text_or dbl (codes "message") (codes "server error") msg in
        note (on_close p (codes "server error: " ++ message))
          (note (on_error p message) (gone id p t)))
    else t

-- `handleControl`; `msg` has a type, since `parseControlMessage` gave it.
unfoldable pub handle_control : (dbl : Doubles) → JsonObject dbl.Double → Tunnel → Tunnel
unfolding lookup find_id deref on_message
handle_control dbl msg t = elim (lookup (codes "sessionId") msg) [
  | none ↦ t
  | some v ↦ if not v.is_number then t else elim (find_id (dbl.to_u32 v.num) t.sessions) [
    | none ↦ t
    | some p ↦ elim (deref t.heap p) [
      | none ↦ t
      | some s ↦ elim (lookup (codes "type") msg) [
        | none ↦ t
        | some k ↦ on_message dbl (dbl.to_u32 v.num) p s k.str msg t
      ]
    ]
  ]
]

-- The text handler that `runLoop` sets.
unfoldable pub on_text : (dbl : Doubles) → Bytes → Tunnel → Tunnel
unfolding handle_control
on_text dbl text t = elim (parse_control_message dbl text) [
  | none ↦ t
  | some msg ↦ handle_control dbl msg t
]

unfoldable pub deliver : ℕ → TunnelSession → Bytes → Tunnel → Tunnel
unfolding note
deliver p s payload t = if s.closed then t else note (on_data p payload) t

-- The binary handler that `runLoop` sets.
unfoldable pub on_binary : Bytes → Tunnel → Tunnel
unfolding decode_data_frame find_id deref deliver
on_binary bytes t = elim (decode_data_frame bytes) [
  | none ↦ t
  | some frame ↦ elim (find_id frame.session_id t.sessions) [
    | none ↦ t
    | some p ↦ elim (deref t.heap p) [ none ↦ t | some s ↦ deliver p s frame.payload t ]
  ]
]

unfoldable pub disconnect_each : Bytes → List (ℕ × ℕ) → Tunnel → Tunnel
unfolding note update
disconnect_each reason [] t = t
disconnect_each reason ((id, p) ∷ all_) t =
    let told = note (on_close p reason) (note (on_error p reason) t) in
    disconnect_each reason all_ (record told { heap = update shut told.heap p })

-- `onDisconnected`: once for a connection.
unfoldable pub on_disconnected : Bytes → Tunnel → Tunnel
unfolding note disconnect_each
on_disconnected reason t =
    if t.disconnected
    then t
    else note (on_down reason) (
        disconnect_each reason t.sessions
          (record t { disconnected = true; ready = false; sessions = [] }))

-- `state_` alone is set here, `closed_` is not.
abbrev pub marked : TunnelSession → TunnelSession
marked s = record s { state = closed_ }

unfoldable pub shutdown_each : List (ℕ × ℕ) → Tunnel → Tunnel
unfolding note update
shutdown_each [] t = t
shutdown_each ((id, p) ∷ all_) t =
    let told = note (on_close p (codes "tunnel shutdown")) t in
    shutdown_each all_ (record told { heap = update marked told.heap p })

-- `close`, less the joining of the thread. Closing the WebSocket may run its close handler, with the
-- reason that is given, if the handler has not run before.
unfoldable pub close : Option Bytes → Tunnel → Tunnel
unfolding on_disconnected shutdown_each
close reason t =
    let stopping = record t { stopped = true } in
    let lost : Tunnel = elim reason [ none ↦ stopping | some r ↦ on_disconnected r stopping ] in
    let down = record lost { ready = false } in
    record (shutdown_each down.sessions down) { sessions = [] }
