-- ===== src/WebSocket/Examples.antt =====
-- The socket's theorems at concrete frames and runs.
use github_codespaces_proxy.Base.{
  ◌*◌, ◌≤◌, ◌≡◌, refl, ◌⊎◌, true, false, List, [], ◌∷◌, ◌++◌, Bytes, codes, arith,
}
use github_codespaces_proxy.WebSocket.Frame.{frame, frame_bytes, read_frame}
use github_codespaces_proxy.WebSocket.Frame.RoundTrip.{read_frame-frame_bytes}
use github_codespaces_proxy.WebSocket.State.{
  Env, Ws, open_, is_closed, is_open, send_frame, on_text, on_binary, fresh, from_server_stream,
  emit,
}
use github_codespaces_proxy.WebSocket.Send.{send_text, send_binary}
use github_codespaces_proxy.WebSocket.Read.{run_read_loop}
use github_codespaces_proxy.WebSocket.Loop.{IsRun, run_read_loop-IsRun}
use github_codespaces_proxy.WebSocket.Messages.{send_binary-run_read_loop, send_text-run_read_loop}
use github_codespaces_proxy.WebSocket.Closing.{close_events, Inv}
use github_codespaces_proxy.WebSocket.Life.{
  Call, sends_text, pings, terminates, closes, reads, calls, run_read_loop-closed, calls_close_once,
  from_server_stream-Inv,
}

-- A stream that takes every write, and a random device that is none.
abbrev quiet_env : Env
quiet_env = record { random = λ n. n * 7; write_ok = λ written more. true }

abbrev client : Ws
client = fresh open_ false

abbrev three_bytes : Bytes
three_bytes = 104 ∷ 105 ∷ 200 ∷ []

abbrev stray : Bytes
stray = 0x89 ∷ 0 ∷ []

read_frame-frame_bytes_example :
    read_frame (frame_bytes false 2 three_bytes true (1 ∷ 2 ∷ 3 ∷ 250 ∷ []) ++ stray)
    ≡ frame true 2 three_bytes stray
read_frame-frame_bytes_example =
    read_frame-frame_bytes false 2 three_bytes true (1 ∷ 2 ∷ 3 ∷ 250 ∷ []) stray (omega arith)
      (omega arith) (omega arith, (omega arith, (omega arith, tt))) refl
      (omega arith, (omega arith, (omega arith, (omega arith, tt))))

run_read_loop-IsRun_example :
    IsRun quiet_env from_server_stream stray (run_read_loop quiet_env from_server_stream stray)
run_read_loop-IsRun_example = run_read_loop-IsRun quiet_env from_server_stream stray

binary_sent : (send_binary quiet_env client three_bytes).1 ≡ true
unfolding send_binary fresh is_open send_frame
binary_sent = refl

send_binary-run_read_loop_example :
    (w : Bytes) × ((send_binary quiet_env client three_bytes).0.written ≡ client.written ++ w)
    × (run_read_loop quiet_env (fresh open_ true) (w ++ stray)
        ≡ run_read_loop quiet_env (emit (on_binary three_bytes) (fresh open_ true)) stray)
unfolding fresh is_closed
send_binary-run_read_loop_example =
    send_binary-run_read_loop quiet_env quiet_env client (fresh open_ true) three_bytes stray
      (omega arith, (omega arith, (omega arith, tt))) binary_sent refl refl refl

text_sent : (send_text quiet_env client three_bytes).1 ≡ true
unfolding send_text fresh is_open send_frame
text_sent = refl

send_text-run_read_loop_example :
    (w : Bytes) × ((send_text quiet_env client three_bytes).0.written ≡ client.written ++ w)
    × (run_read_loop quiet_env (fresh open_ true) (w ++ stray)
        ≡ run_read_loop quiet_env (emit (on_text three_bytes) (fresh open_ true)) stray)
unfolding fresh is_closed
send_text-run_read_loop_example =
    send_text-run_read_loop quiet_env quiet_env client (fresh open_ true) three_bytes stray
      (omega arith, (omega arith, (omega arith, tt))) (omega arith) text_sent refl

run_read_loop-closed_example :
    Inv (run_read_loop quiet_env from_server_stream stray)
    × (is_closed (run_read_loop quiet_env from_server_stream stray).state ≡ true)
    × (close_events (run_read_loop quiet_env from_server_stream stray).events ≡ 1)
run_read_loop-closed_example =
    run_read_loop-closed quiet_env from_server_stream stray from_server_stream-Inv

abbrev some_calls : List Call
some_calls = sends_text (codes "hello") ∷ pings ∷ closes 1000 [] ∷ reads stray ∷ terminates ∷ []

calls_close_once_example :
    (close_events (calls quiet_env from_server_stream some_calls).events ≤ 1)
    × ((is_closed (calls quiet_env from_server_stream some_calls).state ≡ false)
        ⊎ (close_events (calls quiet_env from_server_stream some_calls).events ≡ 1))
calls_close_once_example = calls_close_once quiet_env some_calls
