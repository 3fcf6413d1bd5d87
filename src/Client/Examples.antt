-- ===== src/Client/Examples.antt =====
-- The client's theorems at concrete sessions.
use github_codespaces_proxy.Base.{
  ◌≡◌, refl, true, false, some, [], ◌∷◌, ◌++◌, codes, arith, All, Bytes, to_string,
}
use github_codespaces_proxy.Protocol.Examples.{whole_numbers}
use github_codespaces_proxy.Protocol.Json.{◌>>=◌, parse_control_message}
use github_codespaces_proxy.Protocol.Message.{connect_message}
use github_codespaces_proxy.Server.Connect.{connect_target, mode_tcp_over_wss}
use github_codespaces_proxy.Client.State.{Net, TunnelOptions, Tunnel, on_down, fresh, connected_up}
use github_codespaces_proxy.Client.Sessions.{open_session}
use github_codespaces_proxy.Client.Sessions.Ids.{IsId, IsOpened, open_session-IsOpened}
use github_codespaces_proxy.Client.Sessions.Room.{open_session_room}
use github_codespaces_proxy.Client.Control.{on_disconnected}
use github_codespaces_proxy.Client.Control.Disconnect.{
  notices, on_disconnected-told, on_disconnected_twice,
}
use github_codespaces_proxy.Client.Url.{parse_ws_url}
use github_codespaces_proxy.Client.Url.Hosts.{IsHostChar, bare, parse_ws_url-bare}
use github_codespaces_proxy.Client.Server.{connect_target-connect_message}

abbrev kind_net : Net
kind_net = record { ws_open = λ log. true; text_ok = λ log t. true; binary_ok = λ log b. true }

abbrev two_sessions : TunnelOptions
two_sessions = record { reconnect_delay_ms = 500; max_reconnect_delay_ms = 15000; max_sessions = 2 }

abbrev ready_tunnel : Tunnel
ready_tunnel = connected_up fresh

abbrev with_session : Tunnel
with_session = (open_session kind_net two_sessions (codes "example.com") 443 ready_tunnel).0

first-IsId : IsId ready_tunnel.next_id
unfolding IsId connected_up fresh
first-IsId = (omega arith, omega arith)

open_session-IsOpened_example :
    IsOpened two_sessions
      (codes "example.com")
      443
      ready_tunnel
      (open_session kind_net two_sessions (codes "example.com") 443 ready_tunnel)
open_session-IsOpened_example =
    open_session-IsOpened kind_net two_sessions (codes "example.com") 443 ready_tunnel first-IsId

open_session_room_example :
    (open_session kind_net two_sessions (codes "example.com") 443 ready_tunnel).1 ≡ some 0
unfolding connected_up fresh
open_session_room_example =
    open_session_room kind_net two_sessions (codes "example.com") 443 ready_tunnel refl first-IsId
      (omega arith) (omega arith) refl (λ text. refl)

opened_test : with_session.sessions ≡ (1, 0) ∷ []
unfolding open_session connected_up fresh
opened_test = refl

with_session_up : with_session.disconnected ≡ false
unfolding open_session connected_up fresh
with_session_up = refl

on_disconnected-told_example :
    ((on_disconnected (codes "wss closed") with_session).sessions ≡ [])
    × ((on_disconnected (codes "wss closed") with_session).ready ≡ false)
    × ((on_disconnected (codes "wss closed") with_session).log
        ≡ with_session.log
          ++ (notices (codes "wss closed") with_session.sessions
              ++ on_down (codes "wss closed") ∷ []))
on_disconnected-told_example =
    on_disconnected-told (codes "wss closed") with_session with_session_up

on_disconnected_twice_example :
    on_disconnected (codes "timeout") (on_disconnected (codes "wss closed") with_session)
    ≡ on_disconnected (codes "wss closed") with_session
on_disconnected_twice_example =
    on_disconnected_twice (codes "wss closed") (codes "timeout") with_session

seven_read : whole_numbers.to_u32 (whole_numbers.strtod (to_string 7)) ≡ 7
unfolding to_string
seven_read = refl

port_read : whole_numbers.to_u16 (whole_numbers.strtod (to_string 443)) ≡ 443
unfolding to_string
port_read = refl

connect_target-connect_message_example :
    (parse_control_message whole_numbers (connect_message 7 (codes "example.com") 443)
      >>= connect_target whole_numbers)
    ≡ some (record {
      session_id = 7;
      host = codes "example.com";
      port = 443;
      mode = mode_tcp_over_wss;
    })
connect_target-connect_message_example =
    connect_target-connect_message whole_numbers 7 (codes "example.com") 443 seven_read port_read

abbrev example_host : Bytes
example_host = codes "a.io"

example_host-IsHostChar : All IsHostChar example_host
unfolding IsHostChar
example_host-IsHostChar =
    ((refl, refl, refl), ((refl, refl, refl), ((refl, refl, refl), ((refl, refl, refl), tt))))

parse_test :
    parse_ws_url (codes "https://[::1]:8443/x?y")
    ≡ some (record {
      tls = true;
      host = codes "::1";
      port = 8443;
      path = codes "/x?y";
      host_header = codes "::1:8443";
    })
unfolding parse_ws_url to_string
parse_test = refl

parse_ws_url-bare_example :
    (parse_ws_url (codes "wss://" ++ example_host) ≡ some (bare true example_host))
    × (parse_ws_url (codes "ws://" ++ example_host) ≡ some (bare false example_host))
parse_ws_url-bare_example = parse_ws_url-bare example_host (omega arith) example_host-IsHostChar
