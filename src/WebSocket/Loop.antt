-- ===== src/WebSocket/Loop.antt =====
-- The read loop of src/common/websocket.cpp, round by round.
use github_codespaces_proxy.Base.{
  ℕ, zero, suc, ◌+◌, ◌/◌, ◌%◌, ◌≤◌, ◌<◌, ◌≡◌, refl, ap, ◌∙◌, Bool, true, false, Option, none, some,
  [], ◌∷◌, arith, ltb, leb, ◌==◌, if◌then◌else◌, Bytes, length, drop, length-drop, Bool-cases, inl,
  inr,
}
use github_codespaces_proxy.WebSocket.Frame.{
  Read, ended, too_large, frame, read_full, extended_length, read_payload, read_head, read_frame,
  or_ended, max_payload,
}
use github_codespaces_proxy.WebSocket.State.{Env, Ws, is_closed}
use github_codespaces_proxy.WebSocket.Read.{
  read_loop, run_read_loop, dispatch_frame, finish_loop, Round, break, again, on_frame, round,
}

read_full-le :
    (n : ℕ) (input : Bytes) {xs rest : Bytes}
    → read_full n input ≡ some (xs, rest)
    → length rest ≤ length input
unfolding read_full
read_full-le n input h = ground (arith, length-drop n input)

extended_length-le :
    (n7 : ℕ) (input : Bytes) {len : ℕ} {rest : Bytes}
    → extended_length n7 input ≡ some (len, rest)
    → length rest ≤ length input
unfolding extended_length
extended_length-le n7 input h = ground (arith, length-drop 2 input, length-drop 8 input)

read_payload-le :
    (fin : Bool) (opcode : ℕ) (masked : Bool) (len : ℕ) (input : Bytes) {f : Bool} {o : ℕ}
    {p rest : Bytes}
    → read_payload fin opcode masked len input ≡ frame f o p rest
    → length rest ≤ length input
unfolding read_payload
read_payload-le fin opcode true len input h =
    ground (arith, length-drop 4 input, length-drop len (drop 4 input))
read_payload-le fin opcode false len input h = ground (arith, length-drop len input)

extended-cases :
    (h0 h1 : ℕ) (input : Bytes) {f : Bool} {o : ℕ} {p rest : Bytes}
    → read_head h0 h1 input ≡ frame f o p rest
    → length rest ≤ length input
unfolding read_head
extended-cases h0 h1 input {f} {o} {p} {rest} h = go (extended_length (h1 % 128) input) refl h
  where
    go :
        (x : Option (ℕ × Bytes))
        → extended_length (h1 % 128) input ≡ x
        → or_ended x (λ r.
          if ltb max_payload r.0
          then too_large
          else read_payload (h0 / 128 % 2 == 1) (h0 % 16) (h1 / 128 % 2 == 1) r.0 r.1)
          ≡ frame f o p rest
        → length rest ≤ length input
    go none e k = cc
    go (some (len, r)) e k = elim (Bool-cases (ltb max_payload len)) [
      | inl b ↦ cc (rw b at k)
      | inr b ↦ omega (
        arith,
        extended_length-le (h1 % 128) input e,
        read_payload-le (h0 / 128 % 2 == 1) (h0 % 16) (h1 / 128 % 2 == 1) len r (rw b at k),
      )
    ]

-- A frame takes at least two bytes from the input.
pub read_frame_shorter :
    (input : Bytes) {f : Bool} {o : ℕ} {p rest : Bytes}
    → read_frame input ≡ frame f o p rest
    → length rest + 2 ≤ length input
unfolding read_frame
read_frame_shorter [] h = cc
read_frame_shorter (h0 ∷ []) h = cc
read_frame_shorter (h0 ∷ h1 ∷ input) h = omega (arith, extended-cases h0 h1 input h)

on_frame_shorter :
    (env : Env) (ws : Ws) (input : Bytes) (r : Read) {ws' : Ws} {rest : Bytes}
    → read_frame input ≡ r
    → on_frame env ws r ≡ again ws' rest
    → length rest + 2 ≤ length input
unfolding on_frame
on_frame_shorter env ws input ended e h = cc
on_frame_shorter env ws input too_large e h = cc
on_frame_shorter env ws input (frame fin opcode payload rest) e h =
    let s = read_frame_shorter input e in ground arith

round_shorter :
    (env : Env) (ws : Ws) (input : Bytes) {ws' : Ws} {rest : Bytes}
    → round env ws input ≡ again ws' rest
    → length rest + 2 ≤ length input
unfolding round
round_shorter env ws input h = elim (Bool-cases (is_closed ws.state)) [
  | inl c ↦ cc (rw c at h)
  | inr c ↦ on_frame_shorter env ws input (read_frame input) refl (rw c at h)
]

-- A run of the loop from a socket and its input: so many rounds that go on, and one that breaks, with
-- the socket behind the clean-up that follows the loop. There is no fuel in it.
pub data IsRun (env : Env) : Ws → Bytes → Ws → Type 0 where
  breaks :
      {ws ws' : Ws} {input : Bytes}
      → round env ws input ≡ break ws'
      → IsRun env ws input (finish_loop ws')
  goes_on :
      {ws ws' done : Ws} {input rest : Bytes}
      → round env ws input ≡ again ws' rest
      → IsRun env ws' rest done
      → IsRun env ws input done

read_loop-IsRun :
    (fuel : ℕ) (env : Env) (ws : Ws) (input : Bytes)
    → length input < fuel
    → IsRun env ws input (finish_loop (read_loop fuel env ws input))
unfolding read_loop
read_loop-IsRun zero env ws input l = absurd (omega arith)
read_loop-IsRun (suc fuel) env ws input l =
    by_round (round env ws input) refl (λ ws' rest h. read_loop-IsRun fuel env ws' rest h)
  where
    by_round :
        (r : Round)
        → round env ws input ≡ r
        → ((ws' : Ws) (rest : Bytes)
            → length rest < fuel
            → IsRun env ws' rest (finish_loop (read_loop fuel env ws' rest)))
        → IsRun env ws input (finish_loop (read_loop (suc fuel) env ws input))
    by_round (break ws') e ih = rw (e, read_loop) (breaks e)
    by_round (again ws' rest) e ih =
        let s = round_shorter env ws input e in
        rw (e, read_loop) (goes_on e (ih ws' rest (omega arith)))

-- For every socket and whatever the stream brings, the read loop ends: finitely many rounds go on,
-- each from what the one before it left, then a round breaks, and the result is the clean-up
-- behind the loop of the socket of that round.
pub run_read_loop-IsRun :
    (env : Env) (ws : Ws) (input : Bytes) → IsRun env ws input (run_read_loop env ws input)
unfolding run_read_loop
run_read_loop-IsRun env ws input = read_loop-IsRun (suc (length input)) env ws input (omega arith)

read_loop_fuel :
    (f g : ℕ) (env : Env) (ws : Ws) (input : Bytes)
    → length input < f
    → length input < g
    → read_loop f env ws input ≡ read_loop g env ws input
unfolding read_loop
read_loop_fuel zero g env ws input hf hg = absurd (omega arith)
read_loop_fuel (suc f) zero env ws input hf hg = absurd (omega arith)
read_loop_fuel (suc f) (suc g) env ws input hf hg =
    go (round env ws input) refl (λ ws' rest h. read_loop_fuel f g env ws' rest h)
  where
    go :
        (r : Round)
        → round env ws input ≡ r
        → ((ws' : Ws) (rest : Bytes)
            → length rest < f
            → length rest < g
            → read_loop f env ws' rest ≡ read_loop g env ws' rest)
        → read_loop (suc f) env ws input ≡ read_loop (suc g) env ws input
    go (break ws') e ih = rw (e, read_loop) refl
    go (again ws' rest) e ih =
        let s = round_shorter env ws input e in
        rw (e, read_loop) (ih ws' rest (omega arith) (omega arith))

-- A round that goes on can be taken off the front of the whole run.
pub run_read_loop_again :
    (env : Env) (ws : Ws) (input : Bytes) {ws' : Ws} {rest : Bytes}
    → round env ws input ≡ again ws' rest
    → run_read_loop env ws input ≡ run_read_loop env ws' rest
unfolding run_read_loop read_loop finish_loop
run_read_loop_again env ws input {ws'} {rest} h =
    let s = round_shorter env ws input h in
    ap finish_loop (
      first
      ∙ read_loop_fuel (length input) (suc (length rest)) env ws' rest (omega arith) (omega arith))
  where
    first : read_loop (suc (length input)) env ws input ≡ read_loop (length input) env ws' rest
    first = rw (h, read_loop) refl

pub run_read_loop_break :
    (env : Env) (ws : Ws) (input : Bytes) {ws' : Ws}
    → round env ws input ≡ break ws'
    → run_read_loop env ws input ≡ finish_loop ws'
unfolding run_read_loop read_loop finish_loop
run_read_loop_break env ws input h = rw (h, read_loop) refl

-- A data frame at the front of the input is dispatched.
pub run_read_loop_data :
    (env : Env) (ws : Ws) (input : Bytes) {fin : Bool} {opcode : ℕ} {payload rest : Bytes}
    → is_closed ws.state ≡ false
    → read_frame input ≡ frame fin opcode payload rest
    → opcode < 8
    → run_read_loop env ws input ≡ run_read_loop env (dispatch_frame ws opcode payload fin) rest
unfolding round on_frame
run_read_loop_data env ws input {fin} {opcode} {payload} {rest} o e h =
    run_read_loop_again env ws input
      (rw (o, e) (let small : leb 0x8 opcode ≡ false = ground arith in rw small refl))
