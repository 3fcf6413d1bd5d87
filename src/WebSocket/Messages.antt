-- ===== src/WebSocket/Messages.antt =====
-- What one side sends the other side delivers.
use github_codespaces_proxy.Base.{
  ℕ, ◌≤◌, ◌<◌, ◌≡◌, refl, ap, ◌∙◌, true, false, [], ◌++◌, arith, leb, Bytes, IsByte, All, length,
  Bool-cases, inl, inr,
}
use github_codespaces_proxy.WebSocket.Frame.{frame_bytes, op_text, op_binary, max_payload}
use github_codespaces_proxy.WebSocket.State.{
  Env, Ws, is_closed, is_open, mask_key, emit, on_binary, on_text,
}
use github_codespaces_proxy.WebSocket.Send.{send_binary_by, send_binary, send_text, ws_send_chunk}
use github_codespaces_proxy.WebSocket.Read.{run_read_loop, dispatch_frame, deliver}
use github_codespaces_proxy.WebSocket.Fragments.{
  one_frame, send_frame_written, chunks_deliver, dispatch_whole, Sends,
}

deliver_by :
    (env renv : Env) (chunk : ℕ) (ws r : Ws) (payload tail : Bytes)
    → 0 < chunk
    → chunk ≤ max_payload
    → All IsByte payload
    → (send_binary_by chunk env ws payload).1 ≡ true
    → is_closed r.state ≡ false
    → r.frag_opcode ≡ 0
    → r.frag_buf ≡ []
    → (w : Bytes) × Sends ws (send_binary_by chunk env ws payload).0 w
      × (run_read_loop renv r (w ++ tail) ≡ run_read_loop renv (emit (on_binary payload) r) tail)
unfolding send_binary_by
deliver_by env renv chunk ws r payload tail pos fits hb h o e f =
    elim (Bool-cases (is_open ws.state)) [
      | inr no_ ↦ cc (rw no_ at h)
      | inl op ↦ elim (Bool-cases (leb (length payload) chunk)) [
        | inl small ↦ (
          frame_bytes ws.server_side op_binary payload true (mask_key env ws.drawn),
          rw (op, small) (send_frame_written env ws op_binary payload true (rw (op, small) at h)),
          one_frame env renv ws r op_binary payload true tail (omega arith) (ground arith) hb o
              ∙ ap (λ (t : Ws). run_read_loop renv t tail) (dispatch_whole r payload),
        )
        | inr big ↦
            rw (op, big)
              (chunks_deliver env chunk (length payload) renv ws r payload tail pos fits big
                (omega arith) hb (rw (op, big) at h) o e f)
      ]
    ]

-- Whenever sendBinary succeeds, for a payload of bytes of any length, it has written bytes that
-- make any peer whose socket is not closed and which is between messages call its binary handler
-- once, with exactly that payload, and then go on with what follows on the stream.
pub send_binary-run_read_loop :
    (env renv : Env) (ws r : Ws) (payload tail : Bytes)
    → All IsByte payload
    → (send_binary env ws payload).1 ≡ true
    → is_closed r.state ≡ false
    → r.frag_opcode ≡ 0
    → r.frag_buf ≡ []
    → (w : Bytes) × ((send_binary env ws payload).0.written ≡ ws.written ++ w)
      × (run_read_loop renv r (w ++ tail) ≡ run_read_loop renv (emit (on_binary payload) r) tail)
unfolding send_binary
send_binary-run_read_loop env renv ws r payload tail hb h o e f =
    deliver_by env renv ws_send_chunk ws r payload tail (omega arith) (omega arith) hb h o e f

dispatch_text : (r : Ws) (p : Bytes) → dispatch_frame r op_text p true ≡ emit (on_text p) r
unfolding dispatch_frame deliver
dispatch_text r p = refl

-- Whenever sendText succeeds, for a text of at most 64 MiB of bytes, it has written bytes that
-- make any peer whose socket is not closed call its text handler once, with exactly that text, and
-- then go on with what follows on the stream.
pub send_text-run_read_loop :
    (env renv : Env) (ws r : Ws) (text tail : Bytes)
    → All IsByte text
    → length text ≤ max_payload
    → (send_text env ws text).1 ≡ true
    → is_closed r.state ≡ false
    → (w : Bytes) × ((send_text env ws text).0.written ≡ ws.written ++ w)
      × (run_read_loop renv r (w ++ tail) ≡ run_read_loop renv (emit (on_text text) r) tail)
unfolding send_text
send_text-run_read_loop env renv ws r text tail hb hl h o = (
  frame_bytes ws.server_side op_text text true (mask_key env ws.drawn),
  send_frame_written env ws op_text text true h,
  one_frame env renv ws r op_text text true tail (omega arith) hl hb o
      ∙ ap (λ (t : Ws). run_read_loop renv t tail) (dispatch_text r text),
)
