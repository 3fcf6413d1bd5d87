-- ===== src/Client/Sessions.antt =====
-- `openSession`, `push`, `pushEnd` and `closeSession` of `WssTunnel`, each run on its own.
pub mod Ids
pub mod Room
use github_codespaces_proxy.Base.{
  ℕ, zero, suc, Bool, true, false, Option, none, some, ◌&&◌, ◌||◌, not, List, [], ◌∷◌, ◌++◌, leb,
  ◌==◌, if◌then◌else◌, Bytes, codes, length,
}
use github_codespaces_proxy.Base.Store.{deref, update, put_id, erase_id}
use github_codespaces_proxy.Protocol.Frame.{encode_data_frame}
use github_codespaces_proxy.Protocol.Message.{connect_message, half_close_message, close_message}
use github_codespaces_proxy.Client.State.{
  SessionState, connecting, closed_, TunnelSession, Event, on_close, text_sent, binary_sent, Net,
  TunnelOptions, Tunnel, note, alloc_id,
}

abbrev pub new_session : ℕ → Bytes → ℕ → TunnelSession
new_session id host port = record {
  id = id;
  host = host;
  port = port;
  state = connecting;
  closed = false;
  uplink_closed = false;
}

-- The new session is in the map while its `connect` goes out; without a WebSocket that takes it, the
-- entry is taken back.
unfoldable pub register : Net → ℕ → Bytes → ℕ → Tunnel → Tunnel × Option ℕ
unfolding note put_id erase_id
register net id host port t =
    let p = length t.heap in
    let added = record t {
      heap = t.heap ++ new_session id host port ∷ [];
      sessions = put_id id p t.sessions;
    } in
    let taken_back = record added { sessions = erase_id id added.sessions } in
    let message = connect_message id host port in
    if not (net.ws_open t.log)
    then (taken_back, none)
    else if net.text_ok t.log message
    then (note (text_sent message) added, some p)
    else (taken_back, none)

unfoldable pub open_session : Net → TunnelOptions → Bytes → ℕ → Tunnel → Tunnel × Option ℕ
unfolding alloc_id register
open_session net opts host port t =
    if not t.ready
    then (t, none)
    else if leb opts.max_sessions (length t.sessions)
    then (t, none)
    else (let r = alloc_id opts t in
        if r.0 == 0 then (r.1, none) else register net (r.0) host port (r.1))

abbrev pub shut : TunnelSession → TunnelSession
shut s = record s { state = closed_; closed = true }

-- The session leaves the map, the server hears of it if it is to, and the close callback runs.
unfoldable pub shut_session : Net → ℕ → TunnelSession → Bytes → Bool → Tunnel → Tunnel
unfolding note update erase_id
shut_session net p s reason notify t =
    let gone = record t { heap = update shut t.heap p; sessions = erase_id s.id t.sessions } in
    let told =
      if notify && net.ws_open t.log && net.text_ok t.log (close_message s.id)
      then note (text_sent (close_message s.id)) gone
      else gone in
    note (on_close p reason) told

unfoldable pub close_session : Net → ℕ → Bytes → Bool → Tunnel → Tunnel
unfolding deref shut_session
close_session net p reason notify t = elim (deref t.heap p) [
  | none ↦ t
  | some s ↦ if s.closed then t else shut_session net p s reason notify t
]

-- `push`: the local bytes go out as one data frame of the session.
unfoldable pub push : Net → ℕ → Bytes → Tunnel → Tunnel × Bool
unfolding deref note close_session encode_data_frame
push net p bytes t = elim (deref t.heap p) [
  | none ↦ (t, false)
  | some s ↦
      if s.closed || s.uplink_closed
      then (t, false)
      else if not (net.ws_open t.log)
      then (t, false)
      else if net.binary_ok t.log (encode_data_frame s.id bytes)
      then (note (binary_sent (encode_data_frame s.id bytes)) t, true)
      else (close_session net p (codes "wss send failed") false t, false)
]

abbrev pub end_uplink : TunnelSession → TunnelSession
end_uplink s = record s { uplink_closed = true }

-- `pushEnd`: one `half-close`, for the first call.
unfoldable pub push_end : Net → ℕ → Tunnel → Tunnel
unfolding deref update note
push_end net p t = elim (deref t.heap p) [
  | none ↦ t
  | some s ↦
      let ended = record t { heap = update end_uplink t.heap p } in
      if s.closed || s.uplink_closed
      then t
      else if net.ws_open t.log && net.text_ok t.log (half_close_message s.id)
      then note (text_sent (half_close_message s.id)) ended
      else ended
]
