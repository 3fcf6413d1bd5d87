-- ===== src/WebSocket/State.antt =====
-- The state of a `WebSocket`, its close events, and `sendFrame`.
-- The handlers are taken to be set; a call of one is recorded in `events`, in order. What a handler
-- does to other objects is modelled with those.
use github_codespaces_proxy.Base.{
  ℕ, ◌+◌, ◌%◌, Bool, true, false, ◌&&◌, not, List, [], ◌∷◌, ◌++◌, ltb, if◌then◌else◌, Bytes, codes,
  is_empty,
}
use github_codespaces_proxy.WebSocket.Frame.{frame_bytes}

pub data WsState : Type 0 where
  connecting open_ closing closed : WsState

unfoldable pub is_open : WsState → Bool
is_open open_ = true
is_open connecting = false
is_open closing = false
is_open closed = false

unfoldable pub is_closed : WsState → Bool
is_closed closed = true
is_closed connecting = false
is_closed open_ = false
is_closed closing = false

pub data Event : Type 0 where
  on_text on_binary on_close on_error : Bytes → Event

-- The random device, byte by byte, and whether the stream takes a write, given all that was
-- written before.
pub record Env : Type 0 where
  pub random : ℕ → ℕ
  pub write_ok : Bytes → Bytes → Bool

pub record Ws : Type 0 where
  pub state : WsState
  pub server_side : Bool
  pub frag_buf : Bytes
  pub frag_opcode : ℕ
  pub close_emitted : Bool
  pub status_code : ℕ
  pub close_reason : Bytes
  pub stream_open : Bool
  pub written : Bytes
  pub drawn : ℕ
  pub events : List Event

-- A fresh `WsImpl` in the given state; 1006 is the initial status.
unfoldable pub fresh : WsState → Bool → Ws
fresh state server_side = record {
  state = state;
  server_side = server_side;
  frag_buf = [];
  frag_opcode = 0;
  close_emitted = false;
  status_code = 1006;
  close_reason = [];
  stream_open = true;
  written = [];
  drawn = 0;
  events = [];
}

-- `fromServerStream`: an open socket on the server's side.
unfoldable pub from_server_stream : Ws
unfolding fresh
from_server_stream = fresh open_ true

unfoldable pub emit : Event → Ws → Ws
emit e ws = record ws { events = ws.events ++ e ∷ [] }

-- The whole frame is written, or the write fails; a closed stream takes nothing.
unfoldable pub write_raw : Env → Ws → Bytes → Ws × Bool
write_raw env ws data_ =
    if ws.stream_open && env.write_ok ws.written data_
    then (record ws { written = ws.written ++ data_ }, true)
    else (ws, false)

-- The four key bytes that the n-th draw begins; `rd() & 0xff` is `% 256`.
unfoldable pub mask_key : Env → ℕ → Bytes
mask_key env n =
    (env.random n % 256)
    ∷ (env.random (n + 1) % 256)
    ∷ (env.random (n + 2) % 256)
    ∷ (env.random (n + 3) % 256)
    ∷ []

-- Data frames need an open socket; control frames do not. A client draws a key for each frame.
unfoldable pub send_frame : Env → Ws → ℕ → Bytes → Bool → Ws × Bool
unfolding is_open write_raw mask_key
send_frame env ws opcode payload fin =
    if not (is_open ws.state) && ltb opcode 0x8
    then (ws, false)
    else write_raw env (if ws.server_side then ws else record ws { drawn = ws.drawn + 4 })
        (frame_bytes ws.server_side opcode payload fin (mask_key env ws.drawn))

-- The close handler runs once.
unfoldable pub emit_close : Ws → Bytes → Ws
unfolding emit
emit_close ws reason =
    if ws.close_emitted then ws else emit (on_close reason) (record ws { close_emitted = true })

unfoldable pub fail_connection : Ws → Bytes → Bool → Ws
unfolding is_closed emit emit_close
fail_connection ws reason notify_error =
    if is_closed ws.state
    then ws
    else (let shut = record ws { state = closed; stream_open = false } in
        emit_close (if notify_error then emit (on_error reason) shut else shut) reason)

unfoldable pub terminate : Ws → Ws
unfolding emit_close is_empty
terminate ws =
    emit_close (record ws { state = closed; stream_open = false })
      (if is_empty ws.close_reason then codes "terminated" else ws.close_reason)
