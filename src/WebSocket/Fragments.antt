-- ===== src/WebSocket/Fragments.antt =====
-- The pieces of a large message, as the peer reads them.
use github_codespaces_proxy.Base.{
  ℕ, zero, suc, ◌≤◌, ◌<◌, ◌≡◌, refl, ap, ◌∙◌, Bool, true, false, [], ◌∷◌, ◌++◌, arith, leb,
  if◌then◌else◌, Bytes, IsByte, All, length, take, drop, length-drop, length-take, Bool-cases, inl,
  inr, append_assoc, take-append-drop,
}
use github_codespaces_proxy.WebSocket.Frame.{frame_bytes, op_continuation, op_binary, max_payload}
use github_codespaces_proxy.WebSocket.Frame.RoundTrip.{read_frame-frame_bytes}
use github_codespaces_proxy.WebSocket.State.{
  Env, Ws, is_closed, send_frame, mask_key, emit, on_binary,
}
use github_codespaces_proxy.WebSocket.Send.{send_chunks}
use github_codespaces_proxy.WebSocket.Read.{run_read_loop, dispatch_frame, deliver}
use github_codespaces_proxy.WebSocket.Loop.{run_read_loop_data}

mask_key_shape : (env : Env) (n : ℕ) → (length (mask_key env n) ≡ 4) × All IsByte (mask_key env n)
unfolding mask_key
mask_key_shape env n = (refl, omega arith)

-- A write that succeeded is one frame behind what was written before.
pub send_frame_written :
    (env : Env) (ws : Ws) (opcode : ℕ) (payload : Bytes) (fin : Bool)
    → (send_frame env ws opcode payload fin).1 ≡ true
    → (send_frame env ws opcode payload fin).0.written
      ≡ ws.written ++ frame_bytes ws.server_side opcode payload fin (mask_key env ws.drawn)
unfolding send_frame
send_frame_written env ws opcode payload fin h = ground arith

-- The peer's run on that frame.
abbrev pub Sends : Ws → Ws → Bytes → Type 0
Sends ws ws' w = ws'.written ≡ ws.written ++ w

pub one_frame :
    (env renv : Env) (ws r : Ws) (opcode : ℕ) (payload : Bytes) (fin : Bool) (tail : Bytes)
    → opcode < 8
    → length payload ≤ max_payload
    → All IsByte payload
    → is_closed r.state ≡ false
    → run_read_loop renv r
        (frame_bytes ws.server_side opcode payload fin (mask_key env ws.drawn) ++ tail)
      ≡ run_read_loop renv (dispatch_frame r opcode payload fin) tail
one_frame env renv ws r opcode payload fin tail ho hl hp o =
    let k = mask_key_shape env ws.drawn in
    run_read_loop_data renv r _ o
      (read_frame-frame_bytes ws.server_side opcode payload fin (mask_key env ws.drawn) tail
        (omega arith) hl hp k.0 k.1)
      ho

-- The receiver with no fragments.
abbrev reset : Ws → Ws
reset r = record r { frag_buf = []; frag_opcode = 0 }

-- The bytes `w` take a receiver in the middle of a binary message to its end.
abbrev Finishes : Bytes → Bytes → Type 0
Finishes w xs =
    (renv : Env) (r : Ws) (tail : Bytes)
    → is_closed r.state ≡ false
    → r.frag_opcode ≡ 2
    → run_read_loop renv r (w ++ tail)
      ≡ run_read_loop renv (emit (on_binary (r.frag_buf ++ xs)) (reset r)) tail

dispatch_last :
    (r : Ws) (p : Bytes)
    → r.frag_opcode ≡ 2
    → dispatch_frame r 0 p true ≡ emit (on_binary (r.frag_buf ++ p)) (reset r)
unfolding dispatch_frame deliver
dispatch_last r p e = rw e refl

dispatch_more :
    (r : Ws) (p : Bytes)
    → r.frag_opcode ≡ 2
    → dispatch_frame r 0 p false ≡ record r { frag_buf = r.frag_buf ++ p }
unfolding dispatch_frame deliver
dispatch_more r p e = rw e refl

take_all : (n : ℕ) (xs : Bytes) → length xs ≤ n → take n xs ≡ xs
take_all zero [] h = refl
take_all zero (x ∷ xs) h = absurd (omega arith)
take_all (suc n) [] h = refl
take_all (suc n) (x ∷ xs) h = ap (◌∷◌ x) (take_all n xs (omega arith))

drop_all : (n : ℕ) (xs : Bytes) → length xs ≤ n → drop n xs ≡ []
drop_all zero [] h = refl
drop_all zero (x ∷ xs) h = absurd (omega arith)
drop_all (suc n) [] h = refl
drop_all (suc n) (x ∷ xs) h = drop_all n xs (omega arith)

All-take : (n : ℕ) (xs : Bytes) → All IsByte xs → All IsByte (take n xs)
All-take zero xs h = tt
All-take (suc n) [] h = tt
All-take (suc n) (x ∷ xs) h = (h.0, All-take n xs h.1)

All-drop : (n : ℕ) (xs : Bytes) → All IsByte xs → All IsByte (drop n xs)
All-drop zero xs h = h
All-drop (suc n) [] h = h
All-drop (suc n) (x ∷ xs) h = All-drop n xs h.1

send_chunks-nil :
    (fuel : ℕ) (env : Env) (chunk : ℕ) (first : Bool) (ws : Ws)
    → send_chunks fuel env chunk first ws [] ≡ (ws, true)
unfolding send_chunks
send_chunks-nil zero env chunk first ws = refl
send_chunks-nil (suc fuel) env chunk first ws = refl

-- The frame that a round of the loop sends.
abbrev piece : Env → ℕ → Bool → Ws → Bytes → Ws × Bool
piece env chunk first ws rest =
    send_frame env ws (if first then op_binary else op_continuation) (take chunk rest)
      (leb (length rest) chunk)

-- A successful loop has sent its first piece, and then the others.
send_chunks-piece :
    (fuel : ℕ) (env : Env) (chunk : ℕ) (first : Bool) (ws : Ws) (x : ℕ) (xs : Bytes)
    → (send_chunks (suc fuel) env chunk first ws (x ∷ xs)).1 ≡ true
    → ((piece env chunk first ws (x ∷ xs)).1 ≡ true)
      × (send_chunks (suc fuel) env chunk first ws (x ∷ xs)
          ≡ send_chunks fuel env chunk false
              (piece env chunk first ws (x ∷ xs)).0
              (drop chunk (x ∷ xs)))
unfolding send_chunks
send_chunks-piece fuel env chunk first ws x xs h =
    elim (Bool-cases (piece env chunk first ws (x ∷ xs)).1) [
      | inl e ↦ (e, rw e refl)
      | inr e ↦ cc (rw e at h)
    ]

module _ (env : Env) (chunk : ℕ) (pos : 0 < chunk) (fits : chunk ≤ max_payload) where
  piece-one :
      (renv : Env) (first : Bool) (ws r : Ws) (rest tail : Bytes)
      → All IsByte rest
      → is_closed r.state ≡ false
      → run_read_loop renv r (
          frame_bytes ws.server_side
            (if first then op_binary else op_continuation)
            (take chunk rest)
            (leb (length rest) chunk)
            (mask_key env ws.drawn)
          ++ tail)
        ≡ run_read_loop renv
            (dispatch_frame r
              (if first then op_binary else op_continuation)
              (take chunk rest)
              (leb (length rest) chunk))
            tail
  piece-one renv first ws r rest tail hb o =
      one_frame env renv ws r _ (take chunk rest) _ tail (small first)
        (omega (arith, length-take chunk rest)) (All-take chunk rest hb) o
    where
      small : (b : Bool) → (if b then op_binary else op_continuation) < 8
      small true = omega arith
      small false = omega arith

  -- The bytes of the frame that a round writes.
  abbrev piece_bytes : Bool → Ws → Bytes → Bytes
  piece_bytes first ws rest =
      frame_bytes ws.server_side (if first then op_binary else op_continuation) (take chunk rest)
        (leb (length rest) chunk) (mask_key env ws.drawn)

  chunk_last :
      (ws : Ws) (rest : Bytes)
      → All IsByte rest
      → leb (length rest) chunk ≡ true
      → Finishes (piece_bytes false ws rest) rest
  chunk_last ws rest hb last renv r tail o e =
      piece-one renv false ws r rest tail hb o
      ∙ rw (last, take_all chunk rest (ground arith), dispatch_last r rest e) refl

  chunk_more :
      (ws : Ws) (rest w : Bytes)
      → All IsByte rest
      → leb (length rest) chunk ≡ false
      → Finishes w (drop chunk rest)
      → Finishes (piece_bytes false ws rest ++ w) rest
  chunk_more ws rest w hb more later renv r tail o e =
      rw (append_assoc (piece_bytes false ws rest) w tail) (
        piece-one renv false ws r rest (w ++ tail) hb o
        ∙ rw (more, dispatch_more r (take chunk rest) e)
            (later renv (record r { frag_buf = r.frag_buf ++ take chunk rest }) tail o e
              ∙ rw
                  (
                    append_assoc r.frag_buf (take chunk rest) (drop chunk rest),
                    take-append-drop chunk rest,
                  )
                  refl))

  chunks_finish :
      (fuel : ℕ) (ws : Ws) (rest : Bytes)
      → 0 < length rest
      → length rest ≤ fuel
      → All IsByte rest
      → (send_chunks fuel env chunk false ws rest).1 ≡ true
      → (w : Bytes) × Sends ws (send_chunks fuel env chunk false ws rest).0 w × Finishes w rest
  chunks_finish fuel ws [] h0 hl hb h = absurd (omega arith)
  chunks_finish zero ws (x ∷ xs) h0 hl hb h = absurd (omega arith)
  chunks_finish (suc fuel) ws (x ∷ xs) h0 hl hb h =
      let rest : Bytes = x ∷ xs in
      let (ok, e) = send_chunks-piece fuel env chunk false ws x xs h in
      let sent = (piece env chunk false ws rest).0 in
      let written =
        send_frame_written env ws op_continuation (take chunk rest) (leb (length rest) chunk) ok in
      elim (Bool-cases (leb (length rest) chunk)) [
        | inl last ↦ (
          piece_bytes false ws rest,
          rw (e, drop_all chunk rest (ground arith), send_chunks-nil fuel env chunk false sent)
              written,
          chunk_last ws rest hb last,
        )
        | inr more ↦
            let (w, s, f) =
              chunks_finish fuel sent (drop chunk rest) (ground (arith, length-drop chunk rest))
                (omega (arith, length-drop chunk rest)) (All-drop chunk rest hb) (rw e at h) in
            (
              piece_bytes false ws rest ++ w,
              rw e (s ∙ rw (written) (append_assoc ws.written (piece_bytes false ws rest) w)),
              chunk_more ws rest w hb more f,
            )
      ]

reset_self : (r : Ws) → r.frag_opcode ≡ 0 → r.frag_buf ≡ [] → reset r ≡ r
reset_self r e f = ground arith

dispatch_first :
    (r : Ws) (p : Bytes) → dispatch_frame r 2 p false ≡ record r { frag_opcode = 2; frag_buf = p }
unfolding dispatch_frame deliver
dispatch_first r p = refl

pub dispatch_whole : (r : Ws) (p : Bytes) → dispatch_frame r 2 p true ≡ emit (on_binary p) r
unfolding dispatch_frame deliver
dispatch_whole r p = refl

-- The first piece of several, and then the others.
pub chunks_deliver :
    (env : Env) (chunk : ℕ) (fuel : ℕ) (renv : Env) (ws r : Ws) (payload tail : Bytes)
    → 0 < chunk
    → chunk ≤ max_payload
    → leb (length payload) chunk ≡ false
    → length payload ≤ fuel
    → All IsByte payload
    → (send_chunks fuel env chunk true ws payload).1 ≡ true
    → is_closed r.state ≡ false
    → r.frag_opcode ≡ 0
    → r.frag_buf ≡ []
    → (w : Bytes) × Sends ws (send_chunks fuel env chunk true ws payload).0 w
      × (run_read_loop renv r (w ++ tail) ≡ run_read_loop renv (emit (on_binary payload) r) tail)
chunks_deliver env chunk fuel renv ws r [] tail pos fits big hl hb h o e f = absurd (ground arith)
chunks_deliver env chunk zero renv ws r (x ∷ xs) tail pos fits big hl hb h o e f =
    absurd (omega arith)
chunks_deliver env chunk (suc fuel) renv ws r (x ∷ xs) tail pos fits big hl hb h o e f =
    let rest : Bytes = x ∷ xs in
    let (ok, q) = send_chunks-piece fuel env chunk true ws x xs h in
    let sent = (piece env chunk true ws rest).0 in
    let first = piece_bytes env chunk pos fits true ws rest in
    let written =
      send_frame_written env ws op_binary (take chunk rest) (leb (length rest) chunk) ok in
    let (w, s, later) =
      chunks_finish env chunk pos fits fuel sent (drop chunk rest)
        (ground (arith, length-drop chunk rest)) (omega (arith, length-drop chunk rest))
        (All-drop chunk rest hb) (rw q at h) in
    (
      first ++ w,
      rw q (s ∙ rw written (append_assoc ws.written first w)),
      rw (append_assoc first w tail) (
          piece-one env chunk pos fits renv true ws r rest (w ++ tail) hb o
          ∙ rw (big, dispatch_first r (take chunk rest))
              (later renv (record r { frag_opcode = 2; frag_buf = take chunk rest }) tail o refl
                ∙ rw (take-append-drop chunk rest) (
                    ap (λ (t : Ws). run_read_loop renv (emit (on_binary rest) t) tail)
                      (reset_self r e f)))),
    )
