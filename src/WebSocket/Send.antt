-- ===== src/WebSocket/Send.antt =====
-- `sendText`, `sendBinary`, `sendPing` and `close`.
use github_codespaces_proxy.Base.{
  ℕ, zero, suc, ◌*◌, ◌/◌, ◌%◌, ◌^◌, Bool, true, false, not, [], ◌∷◌, leb, if◌then◌else◌, Bytes,
  is_empty, length, take, drop, min,
}
use github_codespaces_proxy.WebSocket.Frame.{op_continuation, op_text, op_binary, op_close, op_ping}
use github_codespaces_proxy.WebSocket.State.{
  Env, Ws, WsState, connecting, open_, closing, closed, is_open, is_closed, send_frame,
}

abbrev pub ws_send_chunk : ℕ
ws_send_chunk = 256 * 1024

unfoldable pub send_text : Env → Ws → Bytes → Ws × Bool
send_text env ws text = send_frame env ws op_text text true

unfoldable pub send_ping : Env → Ws → Ws × Bool
unfolding send_frame
send_ping env ws = send_frame env ws op_ping [] true

-- The loop of `sendBinary` over the bytes `data + off`; `off < len` says that some are left. The
-- fuel bounds the rounds: each sends `chunk` bytes, or the last ones.
unfoldable pub send_chunks : ℕ → Env → ℕ → Bool → Ws → Bytes → Ws × Bool
unfolding is_empty
send_chunks zero env chunk first ws rest = (ws, is_empty rest)
send_chunks (suc fuel) env chunk first ws [] = (ws, true)
send_chunks (suc fuel) env chunk first ws (x ∷ xs) =
    let rest : Bytes = x ∷ xs in
    let sent =
      send_frame env ws (if first then op_binary else op_continuation) (take chunk rest)
        (leb (length rest) chunk) in
    let more = send_chunks fuel env chunk false sent.0 (drop chunk rest) in
    if sent.1 then more else (sent.0, false)

unfoldable pub send_binary_by : ℕ → Env → Ws → Bytes → Ws × Bool
send_binary_by chunk env ws data_ =
    if not (is_open ws.state)
    then (ws, false)
    else if leb (length data_) chunk
    then send_frame env ws op_binary data_ true
    else send_chunks (length data_) env chunk true ws data_

unfoldable pub send_binary : Env → Ws → Bytes → Ws × Bool
unfolding send_binary_by
send_binary = send_binary_by ws_send_chunk

unfoldable pub after_exchange : WsState → WsState
after_exchange open_ = closing
after_exchange connecting = connecting
after_exchange closing = closing
after_exchange closed = closed

-- `close(code, reason)`: nothing on a closed socket; otherwise a close frame, with at most 123
-- bytes of the reason.
unfoldable pub close : Env → Ws → ℕ → Bytes → Ws
unfolding is_closed after_exchange send_frame
close env ws code reason =
    if is_closed ws.state
    then ws
    else (let sent =
          send_frame env (record ws { state = after_exchange ws.state }) op_close
            ((code / 2 ^ 8 % 256) ∷ (code % 256) ∷ take (min (length reason) 123) reason) true in
        record (sent.0) { status_code = code; close_reason = reason })
