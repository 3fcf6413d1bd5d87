-- ===== src/Proxy/Examples.antt =====
-- The local proxy at concrete requests.
use github_codespaces_proxy.Base.{
  ◌+◌, ◌*◌, ◌≤◌, ◌≡◌, refl, true, false, some, List, [], ◌∷◌, ◌++◌, arith, Bytes, All, codes, find,
  is_space, to_string, length,
}
use github_codespaces_proxy.Stream.Split.{concat}
use github_codespaces_proxy.Client.State.{Net, TunnelOptions, fresh, connected_up}
use github_codespaces_proxy.Client.Sessions.{open_session}
use github_codespaces_proxy.Proxy.Target.Hosts.{IsTargetChar}
use github_codespaces_proxy.Proxy.Head.{RequestHead, parse_request_head, rebuild}
use github_codespaces_proxy.Proxy.Reread.{forwarded, rebuild-reparsed}
use github_codespaces_proxy.Proxy.Request.{crlf, head_end, handle_conn, tunnelled, with_session}
use github_codespaces_proxy.Proxy.Connect.{request_text, handle_conn-connect}
use github_codespaces_proxy.Proxy.Pump.{
  Kind, plain_http, Conn, started, on_open, open_flag, open_greeting, open_flush, open_end,
  pump_chunk, read_chunk, read_end,
}
use github_codespaces_proxy.Proxy.Pump.Steps.{
  Reachable, start, step, opens, reads, ends, IsOrdered, gather, offered,
}
use github_codespaces_proxy.Proxy.Pump.Uplink.{Reachable-IsOrdered}

abbrev taking_net : Net
taking_net = record { ws_open = λ log. true; text_ok = λ log t. true; binary_ok = λ log b. true }

abbrev some_sessions : TunnelOptions
some_sessions = record {
  reconnect_delay_ms = 500;
  max_reconnect_delay_ms = 15000;
  max_sessions = 4;
}

abbrev target_host : Bytes
target_host = codes "a.io"

target_host-IsTargetChar : All IsTargetChar target_host
unfolding IsTargetChar is_space
target_host-IsTargetChar =
    ((refl, refl, refl), ((refl, refl, refl), ((refl, refl, refl), ((refl, refl, refl), tt))))

abbrev connect_head : Bytes
connect_head =
    request_text (codes "CONNECT") (target_host ++ b':' ∷ to_string 443) (codes "HTTP/1.1")

connect_head-once : find head_end (connect_head ++ head_end) ≡ some (length connect_head)
unfolding find to_string
connect_head-once = refl

abbrev connect_reads : List Bytes
connect_reads = codes "CONN" ∷ codes "ECT a.io:443 HTTP/1.1" ∷ head_end ∷ []

connect_reads-head : concat connect_reads ≡ connect_head ++ head_end
unfolding concat to_string
connect_reads-head = refl

connect_head-fits : length connect_head + 4 ≤ 64 * 1024
unfolding to_string
connect_head-fits = omega arith

handle_conn-connect_example :
    handle_conn taking_net some_sessions connect_reads (connected_up fresh)
    ≡ with_session tunnelled
        (open_session taking_net some_sessions target_host 443 (connected_up fresh))
handle_conn-connect_example =
    handle_conn-connect taking_net some_sessions target_host 443 (codes "HTTP/1.1") connect_reads
      (connected_up fresh) (omega arith) target_host-IsTargetChar (omega arith) connect_head-once
      connect_head-fits (omega arith, (omega arith, (omega arith, tt))) connect_reads-head

abbrev get_head : Bytes
get_head =
    codes "GET http://a.io/x HTTP/1.1"
    ++ (crlf
        ++ (codes "Host: a.io"
            ++ (crlf ++ (codes "Proxy-Connection: keep-alive" ++ (crlf ++ codes "Accept: */*")))))

abbrev get_request : RequestHead
get_request = record {
  method = codes "GET";
  target = codes "http://a.io/x";
  version = codes "HTTP/1.1";
  headers =
      (codes "Host", codes "a.io")
      ∷ (codes "Proxy-Connection", codes "keep-alive")
      ∷ (codes "Accept", codes "*/*")
      ∷ [];
}

get_parsed : parse_request_head get_head ≡ some get_request
unfolding parse_request_head
get_parsed = refl

rebuild-reparsed_example : parse_request_head (rebuild get_request) ≡ some (forwarded get_request)
rebuild-reparsed_example = rebuild-reparsed get_head get_request get_parsed

abbrev post : Kind
post = plain_http (codes "POST")

abbrev one_read : Conn
one_read = read_chunk (codes "early") true started

abbrev all_read : Conn
all_read = read_end (read_chunk (codes "late") true (on_open post one_read))

one_read-closed : one_read.opened ≡ false
unfolding read_chunk pump_chunk started
one_read-closed = refl

abbrev opened_conn : Conn
opened_conn = on_open post one_read

opened_conn-on : (opened_conn.pumping ≡ true) × (opened_conn.valid ≡ true)
unfolding on_open read_chunk pump_chunk started
opened_conn-on = (refl, refl)

late_conn-on :
    ((read_chunk (codes "late") true opened_conn).pumping ≡ true)
    × ((read_chunk (codes "late") true opened_conn).valid ≡ true)
unfolding on_open read_chunk pump_chunk started
late_conn-on = (refl, refl)

started-on : (started.pumping ≡ true) × (started.valid ≡ true)
unfolding started
started-on = (refl, refl)

all_read-Reachable : Reachable post all_read
all_read-Reachable =
    step _ _
      (step _ _
        (step _ _ (step _ _ start (reads (codes "early") true started started-on.0 started-on.1))
          (opens one_read one_read-closed))
        (reads (codes "late") true opened_conn opened_conn-on.0 opened_conn-on.1))
      (ends (read_chunk (codes "late") true opened_conn) late_conn-on.0 late_conn-on.1)

Reachable-IsOrdered_example : IsOrdered post all_read
Reachable-IsOrdered_example = Reachable-IsOrdered post all_read all_read-Reachable

-- A round of the pump between the stages of `onOpen` goes before the head and the pending chunk.
overtaken_test :
    gather offered
      (open_flush (open_greeting post (read_chunk (codes "late") true (open_flag one_read)))).log
    ≡ codes "late" ∷ codes "POST" ∷ codes "early" ∷ []
unfolding gather offered open_flush open_greeting open_flag read_chunk pump_chunk started
overtaken_test = refl

-- A chunk that is put by behind the flush is never handed on.
lost_test :
    gather offered
      (open_end (
        pump_chunk
          (codes "late")
          false
          true
          (open_flush (open_greeting post (open_flag one_read))))).log
    ≡ codes "POST" ∷ codes "early" ∷ []
unfolding gather offered open_end open_flush open_greeting open_flag read_chunk pump_chunk started
lost_test = refl
