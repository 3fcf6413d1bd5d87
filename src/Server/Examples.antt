-- ===== src/Server/Examples.antt =====
-- The manager's theorems along a concrete `connect`.
use github_codespaces_proxy.Base.{
  ℕ, zero, suc, ◌*◌, ◌<◌, ◌≤◌, ◌≡◌, refl, true, none, some, List, [], ◌∷◌, ◌++◌, append-nil, arith,
  Bytes, All, length, replicate, codes, find_char, is_empty, is_space, text_eq, to_string,
}
use github_codespaces_proxy.Stream.Split.{concat}
use github_codespaces_proxy.Proxy.Lines.{IsWord}
use github_codespaces_proxy.WebSocket.State.{open_}
use github_codespaces_proxy.WebSocket.Accept.{accept_key}
use github_codespaces_proxy.WebSocket.Handshake.{crlf, random_key, request_headers, connect_client}
use github_codespaces_proxy.Server.Counts.{
  ip_count, inc_ip, CountStep, admitted, released, count_steps,
}
use github_codespaces_proxy.Server.Counts.Tally.{tally_steps, IsTally, count_steps-IsTally}
use github_codespaces_proxy.Server.Upgrade.{
  path_of, switching_response, upgraded, handle_connection,
}
use github_codespaces_proxy.Server.Upgrade.Request.{IsText, is_text, is_text-IsText}
use github_codespaces_proxy.Server.Upgrade.Both.{handle_connection-connect_client}
use github_codespaces_proxy.Ssrf.Ipv4.{parse_ipv4}
use github_codespaces_proxy.Ssrf.Guard.{records}
use github_codespaces_proxy.Protocol.Examples.{whole_numbers}
use github_codespaces_proxy.Protocol.Json.{JsonObject}
use github_codespaces_proxy.Protocol.Message.RoundTrip.{connect_object}
use github_codespaces_proxy.Server.State.{dialed, Net, ServerConfig, Manager, fresh}
use github_codespaces_proxy.Server.Connect.{Pending, idle, begin_connect, advance}
use github_codespaces_proxy.Server.Transfer.{destroy_all}
use github_codespaces_proxy.Server.Quiet.{IsSafe}
use github_codespaces_proxy.Server.Steps.{connect, stage, ended, Reachable, start, next}
use github_codespaces_proxy.Server.Steps.Limits.{Reachable-limit, Reachable-closed}
use github_codespaces_proxy.Server.Steps.Safety.{Reachable-IsSafe}

-- Surroundings in which everything succeeds.
abbrev kind_net : Net
kind_net = record {
  now_ms = λ log. 0;
  lookup_all = λ log host. records [];
  connect_ok = λ log address port. true;
  write_ok = λ log p bytes. true;
  ws_open = λ log. true;
  binary_ok = λ log bytes. true;
}

abbrev one_session : ServerConfig
one_session = record {
  idle_timeout_ms = 1000;
  max_sessions_per_connection = 1;
  connect_override = none;
}

abbrev public_connect : JsonObject ℕ
public_connect = connect_object whole_numbers 7 (codes "8.8.8.8") 443

-- The manager after the given number of stages.
abbrev after : ℕ → Manager × Pending
after zero = begin_connect whole_numbers kind_net one_session public_connect fresh
after (suc n) = advance kind_net one_session (after n).1 (after n).0

after-Reachable : (n : ℕ) → Reachable whole_numbers kind_net one_session (after n)
after-Reachable zero = next _ _ start (connect fresh public_connect)
after-Reachable (suc n) = next _ _ (after-Reachable n) (stage (after n).0 (after n).1)

dial_test : (after 3).0.log ≡ dialed (codes "8.8.8.8") 443 ∷ []
unfolding begin_connect advance fresh text_eq parse_ipv4 to_string
dial_test = refl

Reachable-IsSafe_example : All IsSafe (after 4).0.log
Reachable-IsSafe_example =
    Reachable-IsSafe whole_numbers kind_net one_session (after 4).0 (after 4).1 refl
      (after-Reachable 4)

Reachable-limit_example : length (after 4).0.sessions ≤ 1
Reachable-limit_example =
    Reachable-limit whole_numbers kind_net one_session (after 4).0 (after 4).1 (after-Reachable 4)

-- The end comes in while the address is being dialed.
abbrev overtaken : Manager × Pending
overtaken =
    advance kind_net one_session (after 3).1 (destroy_all kind_net (codes "wss closed") (after 3).0)

overtaken-Reachable : Reachable whole_numbers kind_net one_session overtaken
overtaken-Reachable =
    next _ _ (next _ _ (after-Reachable 3) (ended (after 3).0 (after 3).1 (codes "wss closed")))
      (stage (destroy_all kind_net (codes "wss closed") (after 3).0) (after 3).1)

overtaken_idle : overtaken.1 ≡ idle
unfolding begin_connect advance fresh text_eq parse_ipv4
overtaken_idle = refl

overtaken_closed : overtaken.0.closed ≡ true
unfolding begin_connect advance fresh destroy_all text_eq parse_ipv4
overtaken_closed = refl

idle-Reachable : Reachable whole_numbers kind_net one_session (overtaken.0, idle)
unfolding begin_connect advance fresh text_eq parse_ipv4
idle-Reachable = overtaken-Reachable

Reachable-closed_example : overtaken.0.sessions ≡ []
Reachable-closed_example =
    Reachable-closed whole_numbers kind_net one_session overtaken.0 idle-Reachable overtaken_closed

abbrev two_steps : List CountStep
two_steps =
    admitted (codes "8.8.8.8") ∷ admitted (codes "9.9.9.9") ∷ released (codes "8.8.8.8") ∷ []

count_steps-IsTally_example :
    (ip_count (count_steps two_steps []) ≡ tally_steps two_steps (λ ip. 0))
    × IsTally (count_steps two_steps [])
count_steps-IsTally_example = count_steps-IsTally two_steps

abbrev numbers : List ℕ
numbers = replicate 16 7

abbrev sent_request : Bytes
sent_request = request_headers (codes "a.io:443") (codes "/") [] (random_key numbers) ++ crlf

abbrev sent_response : Bytes
sent_response = switching_response (accept_key (random_key numbers))

host-IsText : IsText (codes "a.io:443")
unfolding is_text
host-IsText = is_text-IsText (codes "a.io:443") refl

root-IsWord : IsWord (codes "/")
unfolding IsWord is_space
root-IsWord = (refl, tt)

root-path : path_of (codes "/") ≡ codes "/"
unfolding path_of find_char
root-path = refl

request-fits : length sent_request ≤ 64 * 1024
unfolding request_headers random_key
request-fits = omega arith

request-some : 0 < length sent_request
unfolding request_headers
request-some = omega arith

response-some : 0 < length sent_response
unfolding switching_response
response-some = omega arith

concat_one : (s : Bytes) → concat (s ∷ []) ≡ s
unfolding concat
concat_one s = append-nil s

nothing_counted : ip_count [] (codes "8.8.8.8") < 512
unfolding ip_count
nothing_counted = omega arith

handle_connection-connect_client_example :
    (handle_connection (λ b. true) 512 (codes "8.8.8.8") (sent_request ∷ []) []
      ≡ (upgraded sent_response, inc_ip (codes "8.8.8.8") []))
    × (connect_client (λ b. true) numbers (codes "a.io:443") (codes "/") [] (sent_response ∷ [])
        ≡ some (open_, []))
handle_connection-connect_client_example =
    handle_connection-connect_client (λ b. true) 512 (codes "8.8.8.8") (codes "a.io:443")
      (codes "/") numbers (sent_request ∷ []) (sent_response ∷ []) [] host-IsText root-IsWord
      (unfold is_empty in refl) root-path nothing_counted refl request-fits (request-some, tt)
      (concat_one sent_request) (response-some, tt) (concat_one sent_response)
