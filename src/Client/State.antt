-- ===== src/Client/State.antt =====
-- The state of a `WssTunnel` and its id allocation. A `shared_ptr<TunnelSession>` is an index into
-- `heap`. The callbacks of a session are taken to be set; a call of one is recorded in `log`.
use github_codespaces_proxy.Base.{
  ℕ, zero, suc, ◌+◌, ◌*◌, ◌^◌, Bool, true, false, none, some, List, [], ◌∷◌, ◌++◌, leb,
  if◌then◌else◌, Bytes, min,
}
use github_codespaces_proxy.Base.Store.{find_id}

pub data SessionState : Type 0 where
  connecting open_ closed_ : SessionState

pub record TunnelSession : Type 0 where
  pub id : ℕ
  pub host : Bytes
  pub port : ℕ
  pub state : SessionState
  pub closed : Bool
  pub uplink_closed : Bool

-- The callbacks of a session, by its index, those of the tunnel, and what the WebSocket is given.
pub data Event : Type 0 where
  on_open : ℕ → Event
  on_data on_close on_error : ℕ → Bytes → Event
  on_down tunnel_error : Bytes → Event
  text_sent binary_sent : Bytes → Event

-- The WebSocket, given what was done so far: `ws_` is set and open, and a message goes out.
pub record Net : Type 0 where
  pub ws_open : List Event → Bool
  pub text_ok : List Event → Bytes → Bool
  pub binary_ok : List Event → Bytes → Bool

pub record TunnelOptions : Type 0 where
  pub reconnect_delay_ms : ℕ
  pub max_reconnect_delay_ms : ℕ
  pub max_sessions : ℕ

pub record Tunnel : Type 0 where
  pub heap : List TunnelSession
  pub sessions : List (ℕ × ℕ)
  pub ready : Bool
  pub stopped : Bool
  pub disconnected : Bool
  pub next_id : ℕ
  pub reconnect_attempts : ℕ
  pub log : List Event

unfoldable pub fresh : Tunnel
fresh = record {
  heap = [];
  sessions = [];
  ready = false;
  stopped = false;
  disconnected = false;
  next_id = 1;
  reconnect_attempts = 0;
  log = [];
}

unfoldable pub note : Event → Tunnel → Tunnel
note e t = record t { log = t.log ++ e ∷ [] }

-- The id behind this one; the last one is 0xfffffffe, and 0 is no id.
unfoldable pub following : ℕ → ℕ
following id = if leb 0xfffffffe id then 1 else id + 1

-- The loop of `allocId`: the next id that is not in the map, within the given number of tries, and
-- the id to start with the next time. 0 says that there was none.
unfoldable pub alloc_loop : ℕ → ℕ → List (ℕ × ℕ) → ℕ × ℕ
unfolding following find_id
alloc_loop zero id sessions = (0, id)
alloc_loop (suc tries) id sessions = elim (find_id id sessions) [
  | none ↦ (id, following id)
  | some _ ↦ alloc_loop tries (following id) sessions
]

unfoldable pub alloc_id : TunnelOptions → Tunnel → ℕ × Tunnel
unfolding alloc_loop
alloc_id opts t =
    let r = alloc_loop (opts.max_sessions * 2) t.next_id t.sessions in
    (r.0, record t { next_id = r.1 })

-- The delay before the next attempt to connect, and the count of the attempts.
unfoldable pub reconnect_delay : TunnelOptions → Tunnel → ℕ × Tunnel
reconnect_delay opts t = (
  min (opts.reconnect_delay_ms * 2 ^ min t.reconnect_attempts 10) opts.max_reconnect_delay_ms,
  record t { reconnect_attempts = t.reconnect_attempts + 1 },
)

-- A connection is up.
unfoldable pub connected_up : Tunnel → Tunnel
connected_up t = record t { ready = true; reconnect_attempts = 0; disconnected = false }
