-- ===== src/Proxy/Pump.antt =====
-- `handleConnectTunnel` and `handlePlainHttp`: the flags of a connection, the callbacks of its
-- session and the rounds of the thread that pumps from the local socket into the tunnel. The callbacks
-- and rounds are cut where the other thread can come in.
pub mod Steps
pub mod Order
pub mod Uplink
use github_codespaces_proxy.Base.{
  ℕ, Bool, true, false, not, List, [], ◌∷◌, ◌++◌, if◌then◌else◌, Bytes, codes,
}
use github_codespaces_proxy.Proxy.Request.{crlf, error_reply}

-- What the reads of the socket gave, what the socket was told, and the calls of the tunnel.
pub data Act : Type 0 where
  took : Bytes → Act
  took_end : Act
  wrote : Bytes → Act
  shut_write sock_closed : Act
  push_called : Bytes → Act
  push_end_called session_closed : Act

pub data Kind : Type 0 where
  connect : Kind
  plain_http : Bytes → Kind

pub record Conn : Type 0 where
  pub pending : List Bytes
  pub opened : Bool
  pub half_pending : Bool
  pub closed : Bool
  pub valid : Bool
  pub pumping : Bool
  pub log : List Act

unfoldable pub started : Conn
started = record {
  pending = [];
  opened = false;
  half_pending = false;
  closed = false;
  valid = true;
  pumping = true;
  log = [];
}

unfoldable pub act : Act → Conn → Conn
act a c = record c { log = c.log ++ a ∷ [] }

unfoldable pub close_sock : Conn → Conn
unfolding act
close_sock c = act sock_closed (record c { valid = false })

unfoldable pub on_error : Bytes → Conn → Conn
unfolding act close_sock error_reply
on_error message c =
    if not c.valid
    then c
    else if not c.opened
    then act shut_write (act (wrote (error_reply 502 (codes "Bad Gateway: " ++ message))) c)
    else close_sock c

abbrev pub established : Bytes
established =
    codes "HTTP/1.1 200 Connection Established"
    ++ crlf
    ++ codes "Proxy-Agent: http-over-wss"
    ++ crlf
    ++ crlf

-- The stages of `onOpen`: the flag; the reply, or the head of the request; the pending chunks; the
-- end of the uplink.
unfoldable pub open_flag : Conn → Conn
open_flag c = record c { opened = true }

unfoldable pub open_greeting : Kind → Conn → Conn
unfolding act
open_greeting connect c = act (wrote established) c
open_greeting (plain_http head) c = act (push_called head) c

unfoldable pub push_all : List Bytes → Conn → Conn
unfolding act
push_all [] c = c
push_all (chunk ∷ chunks) c = push_all chunks (act (push_called chunk) c)

unfoldable pub open_flush : Conn → Conn
unfolding push_all
open_flush c = record (push_all c.pending c) { pending = [] }

unfoldable pub open_end : Conn → Conn
unfolding act
open_end c = if c.half_pending then act push_end_called c else c

unfoldable pub on_open : Kind → Conn → Conn
unfolding open_flag open_greeting open_flush open_end
on_open kind c = open_end (open_flush (open_greeting kind (open_flag c)))

unfoldable pub on_data : Bytes → Conn → Conn
unfolding act
on_data data_ c = if not c.valid then c else act (wrote data_) c

unfoldable pub on_close : Conn → Conn
unfolding act close_sock
on_close c =
    let now = record c { closed = true } in
    if c.closed then c else if c.valid then close_sock (act shut_write now) else now

-- The rest of a round of the pump, with the flag `opened` as it was loaded, and whether a push worked.
unfoldable pub pump_chunk : Bytes → Bool → Bool → Conn → Conn
unfolding act
pump_chunk chunk opened push_ok c =
    if opened
    then (record (act (push_called chunk) c) { pumping = push_ok })
    else (record c { pending = c.pending ++ chunk ∷ [] })

unfoldable pub pump_end : Bool → Conn → Conn
unfolding act
pump_end opened c =
    let done = record c { pumping = false } in
    if opened then act push_end_called done else record done { half_pending = true }

-- A round: the socket gave a chunk, its end, or nothing within the time.
unfoldable pub read_chunk : Bytes → Bool → Conn → Conn
unfolding act pump_chunk
read_chunk chunk push_ok c = pump_chunk chunk c.opened push_ok (act (took chunk) c)

unfoldable pub read_end : Conn → Conn
unfolding act pump_end
read_end c = pump_end c.opened (act took_end c)

unfoldable pub read_nothing : Conn → Conn
read_nothing c = if c.closed then record c { pumping = false } else c

-- The socket is no longer valid.
unfoldable pub pump_stop : Conn → Conn
pump_stop c = record c { pumping = false }

-- Behind the pump.
unfoldable pub finish : Conn → Conn
unfolding act close_sock
finish c =
    let told = act session_closed (record c { closed = true }) in
    if c.closed then c else if told.valid then close_sock told else told
