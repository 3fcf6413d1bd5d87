-- ===== src/WebSocket/Read.antt =====
-- The read loop: `dispatchFrame`, `handleControl` and `runReadLoop`.
use github_codespaces_proxy.Base.{
  ℕ, zero, suc, ◌+◌, ◌*◌, Bool, true, false, not, [], ◌++◌, ltb, leb, ◌==◌, if◌then◌else◌, Bytes,
  codes, length, drop, get_or,
}
use github_codespaces_proxy.WebSocket.Frame.{
  op_continuation, op_text, op_binary, op_close, op_ping, op_pong, Read, ended, too_large, frame,
  read_frame,
}
use github_codespaces_proxy.WebSocket.State.{
  Env, Ws, closing, is_open, is_closed, send_frame, emit, on_text, on_binary, fail_connection,
}

-- The end of `dispatchFrame`, for a whole message.
unfoldable pub deliver : Ws → ℕ → Bytes → Ws
unfolding emit
deliver ws opcode payload =
    if opcode == op_text
    then emit (on_text payload) ws
    else if opcode == op_binary
    then emit (on_binary payload) ws
    else ws

-- A finished sequence of fragments goes to `deliver`: its opcode is not that of a continuation.
unfoldable pub dispatch_frame : Ws → ℕ → Bytes → Bool → Ws
dispatch_frame ws opcode payload fin =
    if opcode == op_continuation
    then if ws.frag_opcode == 0
      then ws
      else if not fin
      then record ws { frag_buf = ws.frag_buf ++ payload }
      else deliver (record ws { frag_buf = []; frag_opcode = 0 }) ws.frag_opcode
          (ws.frag_buf ++ payload)
    else if not fin
    then record ws { frag_opcode = opcode; frag_buf = payload }
    else deliver ws opcode payload

-- The status and the reason that the peer sent.
unfoldable pub note_close : Ws → Bytes → Ws
note_close ws payload =
    let coded =
      if leb 2 (length payload)
      then record ws { status_code = get_or payload 0 0 * 256 + get_or payload 1 0 }
      else ws in
    if ltb 2 (length payload) then record coded { close_reason = drop 2 payload } else coded

unfoldable pub handle_control : Env → Ws → ℕ → Bytes → Ws
handle_control env ws opcode payload =
    if opcode == op_ping
    then (send_frame env ws op_pong payload true).0
    else if opcode == op_pong
    then ws
    else if opcode == op_close
    then if is_closed ws.state
      then ws
      else note_close
          (if is_open ws.state
            then (send_frame env (record ws { state = closing }) op_close payload true).0
            else ws)
          payload
    else ws

-- Behind the loop.
unfoldable pub finish_loop : Ws → Ws
finish_loop ws = fail_connection ws (codes "connection closed") false

-- A round of the loop: it breaks, or goes on with what is left of the input.
pub data Round : Type 0 where
  break : Ws → Round
  again : Ws → Bytes → Round

-- Control frames are not fragments, and a close frame ends the loop.
unfoldable pub on_frame : Env → Ws → Read → Round
on_frame env ws ended = break ws
on_frame env ws too_large = break (fail_connection ws (codes "payload too large") true)
on_frame env ws (frame fin opcode payload rest) =
    if leb 0x8 opcode
    then if opcode == op_close
      then break (handle_control env ws opcode payload)
      else again (handle_control env ws opcode payload) rest
    else again (dispatch_frame ws opcode payload fin) rest

unfoldable pub round : Env → Ws → Bytes → Round
round env ws input = if is_closed ws.state then break ws else on_frame env ws (read_frame input)

-- The loop over the bytes that the stream still has; the fuel bounds the rounds.
unfoldable pub read_loop : ℕ → Env → Ws → Bytes → Ws
read_loop zero env ws input = ws
read_loop (suc fuel) env ws input = elim (round env ws input) [
  | break ws' ↦ ws'
  | again ws' rest ↦ read_loop fuel env ws' rest
]

-- Each frame takes two bytes at least.
unfoldable pub run_read_loop : Env → Ws → Bytes → Ws
run_read_loop env ws input = finish_loop (read_loop (suc (length input)) env ws input)
