-- ===== src/WebSocket/Closing.antt =====
-- The close handler of a socket: it runs at most once, and a finished read loop has run it.
use github_codespaces_proxy.Base.{
  ℕ, zero, suc, ◌+◌, ◌/◌, ◌%◌, ◌^◌, min, ◌≡◌, refl, sym, ◌∙◌, Bool, true, false, List, [], ◌∷◌,
  ◌++◌, arith, leb, if◌then◌else◌, Bytes, length, take, drop, Bool-cases, inl, inr,
}
use github_codespaces_proxy.WebSocket.Frame.{op_close, op_binary, op_continuation}
use github_codespaces_proxy.WebSocket.State.{
  Env, Ws, WsState, connecting, open_, closing, closed, Event, on_text, on_binary, on_close,
  on_error, is_closed, is_open, emit, emit_close, fail_connection, terminate, send_frame,
}
use github_codespaces_proxy.WebSocket.Send.{send_binary_by, send_chunks, close, after_exchange}
use github_codespaces_proxy.WebSocket.Read.{dispatch_frame, deliver}

abbrev is_close : Event → ℕ
is_close (on_close _) = 1
is_close (on_text _) = 0
is_close (on_binary _) = 0
is_close (on_error _) = 0

-- How often the close handler ran.
unfoldable pub close_events : List Event → ℕ
close_events [] = 0
close_events (e ∷ es) = is_close e + close_events es

close_events-concat :
    (es : List Event) (e : Event) → close_events (es ++ e ∷ []) ≡ close_events es + is_close e
unfolding close_events
close_events-concat [] e = omega arith
close_events-concat (x ∷ es) e = omega (arith, close_events-concat es e)

-- The flag tells whether the handler ran, and it ran if the socket is closed.
pub record Inv (ws : Ws) : Type 0 where
  pub once : close_events ws.events ≡ (if ws.close_emitted then 1 else 0)
  pub told : is_closed ws.state ≡ true → ws.close_emitted ≡ true

send_frame-same :
    (env : Env) (ws : Ws) (opcode : ℕ) (payload : Bytes) (fin : Bool)
    → let ws' = (send_frame env ws opcode payload fin).0 in
      (ws'.events ≡ ws.events) × (ws'.close_emitted ≡ ws.close_emitted) × (ws'.state ≡ ws.state)
unfolding send_frame
send_frame-same env ws opcode payload fin = ground arith

pub Inv-same :
    (ws ws' : Ws)
    → ws'.events ≡ ws.events
    → ws'.close_emitted ≡ ws.close_emitted
    → ws'.state ≡ ws.state
    → Inv ws
    → Inv ws'
Inv-same ws ws' e c s v = record { once = rw (e, c) v.once; told = rw (s, c) v.told }

pub send_frame-Inv :
    (env : Env) (ws : Ws) (opcode : ℕ) (payload : Bytes) (fin : Bool)
    → Inv ws
    → Inv (send_frame env ws opcode payload fin).0
send_frame-Inv env ws opcode payload fin v =
    let s = send_frame-same env ws opcode payload fin in Inv-same ws _ s.0 s.1 s.2 v

send_chunks-Inv :
    (fuel : ℕ) (env : Env) (chunk : ℕ) (first : Bool) (ws : Ws) (rest : Bytes)
    → Inv ws
    → Inv (send_chunks fuel env chunk first ws rest).0
unfolding send_chunks
send_chunks-Inv zero env chunk first ws rest v = v
send_chunks-Inv (suc fuel) env chunk first ws [] v = v
send_chunks-Inv (suc fuel) env chunk first ws (x ∷ xs) v =
    let sent =
      send_frame env ws (if first then op_binary else op_continuation) (take chunk (x ∷ xs))
        (leb (length (x ∷ xs)) chunk) in
    let v' =
      send_frame-Inv env ws (if first then op_binary else op_continuation) (take chunk (x ∷ xs))
        (leb (length (x ∷ xs)) chunk) v in
    elim (Bool-cases sent.1) [
      | inl e ↦ rw e (send_chunks-Inv fuel env chunk false sent.0 (drop chunk (x ∷ xs)) v')
      | inr e ↦ rw e v'
    ]

-- A shut socket whose events are counted is told once its close event is out.
emit_close-Inv :
    (ws : Ws) (reason : Bytes)
    → close_events ws.events ≡ (if ws.close_emitted then 1 else 0)
    → Inv (emit_close ws reason)
unfolding emit_close
emit_close-Inv ws reason v = ground (arith, close_events-concat ws.events (on_close reason))

pub fail_connection-Inv :
    (ws : Ws) (reason : Bytes) (notify : Bool) → Inv ws → Inv (fail_connection ws reason notify)
unfolding fail_connection emit
fail_connection-Inv ws reason notify v = elim (Bool-cases (is_closed ws.state)) [
  | inl e ↦ rw e v
  | inr e ↦ rw e (counted notify)
]
  where
    shut : Ws
    shut = record ws { state = closed; stream_open = false }

    counted : (b : Bool) → Inv (emit_close (if b then emit (on_error reason) shut else shut) reason)
    counted true =
        emit_close-Inv (emit (on_error reason) shut) reason
          (omega (arith, close_events-concat ws.events (on_error reason), v.once))
    counted false = emit_close-Inv shut reason v.once

pub fail_connection-closed :
    (ws : Ws) (reason : Bytes) (notify : Bool)
    → is_closed (fail_connection ws reason notify).state ≡ true
unfolding fail_connection
fail_connection-closed ws reason notify = ground arith

pub terminate-Inv : (ws : Ws) → Inv ws → Inv (terminate ws)
unfolding terminate
terminate-Inv ws v = emit_close-Inv (record ws { state = closed; stream_open = false }) _ v.once

pub send_binary_by-Inv :
    (chunk : ℕ) (env : Env) (ws : Ws) (payload : Bytes)
    → Inv ws
    → Inv (send_binary_by chunk env ws payload).0
unfolding send_binary_by
send_binary_by-Inv chunk env ws payload v = elim (Bool-cases (is_open ws.state)) [
  | inr e ↦ rw e v
  | inl e ↦ elim (Bool-cases (leb (length payload) chunk)) [
    | inl f ↦ rw (e, f) (send_frame-Inv env ws op_binary payload true v)
    | inr f ↦ rw (e, f) (send_chunks-Inv (length payload) env chunk true ws payload v)
  ]
]

-- A state that is as told as before.
pub Inv-state :
    (ws : Ws) (s : WsState)
    → is_closed s ≡ is_closed ws.state
    → Inv ws
    → Inv (record ws { state = s })
Inv-state ws s e v = record { once = v.once; told = λ h. v.told (sym e ∙ h) }

after_exchange-closed : (s : WsState) → is_closed (after_exchange s) ≡ is_closed s
unfolding after_exchange is_closed
after_exchange-closed open_ = refl
after_exchange-closed connecting = refl
after_exchange-closed closing = refl
after_exchange-closed closed = refl

pub close-Inv :
    (env : Env) (ws : Ws) (code : ℕ) (reason : Bytes) → Inv ws → Inv (close env ws code reason)
unfolding close
close-Inv env ws code reason v = elim (Bool-cases (is_closed ws.state)) [
  | inl e ↦ rw e v
  | inr e ↦
      let v' = Inv-state ws (after_exchange ws.state) (after_exchange-closed ws.state) v in
      let sent =
        send_frame-Inv env (record ws { state = after_exchange ws.state }) op_close
          ((code / 2 ^ 8 % 256) ∷ (code % 256) ∷ take (min (length reason) 123) reason) true v' in
      rw e (record { once = sent.once; told = sent.told })
]

deliver-Inv : (ws : Ws) (opcode : ℕ) (payload : Bytes) → Inv ws → Inv (deliver ws opcode payload)
unfolding deliver
deliver-Inv ws opcode payload v = ground (
  arith,
  close_events-concat ws.events (on_text payload),
  close_events-concat ws.events (on_binary payload),
)

pub dispatch_frame-Inv :
    (ws : Ws) (opcode : ℕ) (payload : Bytes) (fin : Bool)
    → Inv ws
    → Inv (dispatch_frame ws opcode payload fin)
unfolding dispatch_frame
dispatch_frame-Inv ws opcode payload fin v = ground (
  arith,
  deliver-Inv ws opcode payload v,
  deliver-Inv (record ws { frag_buf = []; frag_opcode = 0 }) ws.frag_opcode (ws.frag_buf ++ payload)
      cleared,
)
  where
    cleared : Inv (record ws { frag_buf = []; frag_opcode = 0 })
    cleared = record { once = v.once; told = v.told }
