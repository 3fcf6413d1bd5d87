-- ===== src/WebSocket/Life.antt =====
-- The life of a socket over any sequence of calls.
use github_codespaces_proxy.Base.{
  ℕ, zero, suc, ◌≤◌, ◌≡◌, refl, ◌∙◌, true, false, List, [], ◌∷◌, arith, leb, ◌==◌, if◌then◌else◌,
  Bytes, length, Bool-cases, inl, inr, ◌⊎◌, codes,
}
use github_codespaces_proxy.WebSocket.Frame.{
  Read, ended, too_large, frame, read_frame, op_close, op_text, op_ping, op_pong,
}
use github_codespaces_proxy.WebSocket.State.{
  Env, Ws, closing, is_closed, is_open, terminate, send_frame, from_server_stream,
}
use github_codespaces_proxy.WebSocket.Send.{send_text, send_binary, send_ping, close}
use github_codespaces_proxy.WebSocket.Read.{
  read_loop, run_read_loop, handle_control, note_close, finish_loop, Round, break, again, on_frame,
  round,
}
use github_codespaces_proxy.WebSocket.Closing.{
  close_events, Inv, send_frame-Inv, fail_connection-Inv, fail_connection-closed, terminate-Inv,
  send_binary_by-Inv, close-Inv, dispatch_frame-Inv, Inv-same,
}

note_close-same :
    (ws : Ws) (payload : Bytes)
    → ((note_close ws payload).events ≡ ws.events)
      × ((note_close ws payload).close_emitted ≡ ws.close_emitted)
      × ((note_close ws payload).state ≡ ws.state)
unfolding note_close
note_close-same ws payload = ground arith

note_close-Inv : (ws : Ws) (payload : Bytes) → Inv ws → Inv (note_close ws payload)
note_close-Inv ws payload v =
    let s = note_close-same ws payload in Inv-same ws (note_close ws payload) s.0 s.1 s.2 v

handle_control-Inv :
    (env : Env) (ws : Ws) (opcode : ℕ) (payload : Bytes)
    → Inv ws
    → Inv (handle_control env ws opcode payload)
unfolding handle_control
handle_control-Inv env ws opcode payload v = elim (Bool-cases (opcode == op_ping)) [
  | inl e ↦ rw e (send_frame-Inv env ws op_pong payload true v)
  | inr e ↦ elim (Bool-cases (opcode == op_pong)) [
    | inl f ↦ rw (e, f) v
    | inr f ↦ elim (Bool-cases (opcode == op_close)) [
      | inr g ↦ rw (e, f, g) v
      | inl g ↦ rw (e, f, g) closing_case
    ]
  ]
]
  where
    closing_case : Inv (
        if is_closed ws.state
        then ws
        else note_close
            (if is_open ws.state
              then (send_frame env (record ws { state = closing }) op_close payload true).0
              else ws)
            payload)
    closing_case = elim (Bool-cases (is_closed ws.state)) [
      | inl c ↦ rw c v
      | inr c ↦ elim (Bool-cases (is_open ws.state)) [
        | inl o ↦
            rw (c, o)
              (note_close-Inv _ payload (
                send_frame-Inv env (record ws { state = closing }) op_close payload true
                  (record { once = v.once; told = λ h. unfold is_closed in cc h })))
        | inr o ↦ rw (c, o) (note_close-Inv ws payload v)
      ]
    ]

abbrev RoundInv : Round → Type 0
RoundInv (break ws) = Inv ws
RoundInv (again ws rest) = Inv ws

on_frame-Inv : (env : Env) (ws : Ws) (r : Read) → Inv ws → RoundInv (on_frame env ws r)
unfolding on_frame
on_frame-Inv env ws ended v = v
on_frame-Inv env ws too_large v = fail_connection-Inv ws _ true v
on_frame-Inv env ws (frame fin opcode payload rest) v = elim (Bool-cases (leb 0x8 opcode)) [
  | inr e ↦ rw e (dispatch_frame-Inv ws opcode payload fin v)
  | inl e ↦ elim (Bool-cases (opcode == op_close)) [
    | inl f ↦ rw (e, f) (handle_control-Inv env ws opcode payload v)
    | inr f ↦ rw (e, f) (handle_control-Inv env ws opcode payload v)
  ]
]

round-Inv : (env : Env) (ws : Ws) (input : Bytes) → Inv ws → RoundInv (round env ws input)
unfolding round
round-Inv env ws input v = elim (Bool-cases (is_closed ws.state)) [
  | inl e ↦ rw e v
  | inr e ↦ rw e (on_frame-Inv env ws (read_frame input) v)
]

read_loop-Inv :
    (fuel : ℕ) (env : Env) (ws : Ws) (input : Bytes) → Inv ws → Inv (read_loop fuel env ws input)
unfolding read_loop
read_loop-Inv zero env ws input v = v
read_loop-Inv (suc fuel) env ws input v =
    go (round env ws input) refl (round-Inv env ws input v)
      (λ ws' rest v'. read_loop-Inv fuel env ws' rest v')
  where
    go :
        (r : Round)
        → round env ws input ≡ r
        → RoundInv r
        → ((ws' : Ws) (rest : Bytes) → Inv ws' → Inv (read_loop fuel env ws' rest))
        → Inv (read_loop (suc fuel) env ws input)
    go (break ws') e v' ih = rw (e, read_loop) v'
    go (again ws' rest) e v' ih = rw (e, read_loop) (ih ws' rest v')

-- From a socket whose close handler has run at most once, and once if it is closed, a run of the
-- read loop on whatever the stream brings ends with a closed socket whose close handler has run
-- exactly once.
pub run_read_loop-closed :
    (env : Env) (ws : Ws) (input : Bytes)
    → Inv ws
    → Inv (run_read_loop env ws input)
      × (is_closed (run_read_loop env ws input).state ≡ true)
      × (close_events (run_read_loop env ws input).events ≡ 1)
unfolding run_read_loop finish_loop
run_read_loop-closed env ws input v =
    let last = read_loop (suc (length input)) env ws input in
    let v' =
      fail_connection-Inv last (codes "connection closed") false
        (read_loop-Inv (suc (length input)) env ws input v) in
    let c = fail_connection-closed last (codes "connection closed") false in
    (v', c, v'.once ∙ rw (v'.told c) refl)

-- The calls on a socket.
pub data Call : Type 0 where
  sends_text sends_binary : Bytes → Call
  pings terminates : Call
  closes : ℕ → Bytes → Call
  reads : Bytes → Call

unfoldable pub call : Env → Ws → Call → Ws
call env ws (sends_text text) = (send_text env ws text).0
call env ws (sends_binary payload) = (send_binary env ws payload).0
call env ws pings = (send_ping env ws).0
call env ws terminates = terminate ws
call env ws (closes code reason) = close env ws code reason
call env ws (reads input) = run_read_loop env ws input

unfoldable pub calls : Env → Ws → List Call → Ws
unfolding call
calls env ws [] = ws
calls env ws (c ∷ cs) = calls env (call env ws c) cs

call-Inv : (env : Env) (ws : Ws) (c : Call) → Inv ws → Inv (call env ws c)
unfolding call send_text send_binary send_ping
call-Inv env ws (sends_text text) v = send_frame-Inv env ws op_text text true v
call-Inv env ws (sends_binary payload) v = send_binary_by-Inv _ env ws payload v
call-Inv env ws pings v = send_frame-Inv env ws op_ping [] true v
call-Inv env ws terminates v = terminate-Inv ws v
call-Inv env ws (closes code reason) v = close-Inv env ws code reason v
call-Inv env ws (reads input) v = (run_read_loop-closed env ws input v).0

calls-Inv : (env : Env) (ws : Ws) (cs : List Call) → Inv ws → Inv (calls env ws cs)
unfolding calls
calls-Inv env ws [] v = v
calls-Inv env ws (c ∷ cs) v = calls-Inv env (call env ws c) cs (call-Inv env ws c v)

pub from_server_stream-Inv : Inv from_server_stream
unfolding from_server_stream close_events is_closed
from_server_stream-Inv = record { once = refl; told = λ h. cc }

-- After any sequence of calls on a socket of the server's side the close handler has run at most
-- once, and once if the socket is closed.
pub calls_close_once :
    (env : Env) (cs : List Call)
    → (close_events (calls env from_server_stream cs).events ≤ 1)
      × ((is_closed (calls env from_server_stream cs).state ≡ false)
          ⊎ (close_events (calls env from_server_stream cs).events ≡ 1))
calls_close_once env cs =
    let v = calls-Inv env from_server_stream cs from_server_stream-Inv in
    (
      ground (arith, v.once),
      elim (Bool-cases (is_closed (calls env from_server_stream cs).state)) [
        | inr e ↦ inl e
        | inl e ↦ inr (v.once ∙ rw (v.told e) refl)
      ],
    )
