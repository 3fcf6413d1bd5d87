-- ===== src/Proxy/Pump/Steps.antt =====
-- The steps of a connection, each callback and round run on its own, and what its log says of the
-- uplink.
use github_codespaces_proxy.Base.{◌≡◌, Bool, true, false, List, [], ◌∷◌, ◌++◌, if◌then◌else◌, Bytes}
use github_codespaces_proxy.Proxy.Pump.{
  Act, took, took_end, wrote, shut_write, sock_closed, push_called, push_end_called, session_closed,
  Kind, connect, plain_http, Conn, started, on_error, on_open, on_data, on_close, read_chunk,
  read_end, read_nothing, pump_stop, finish,
}

-- The session opens once; the pump reads while it runs and the socket is valid.
pub data Step (kind : Kind) : Conn → Conn → Type 0 where
  opens : (c : Conn) → c.opened ≡ false → Step kind c (on_open kind c)
  fails : (message : Bytes) (c : Conn) → Step kind c (on_error message c)
  receives : (data_ : Bytes) (c : Conn) → Step kind c (on_data data_ c)
  closes : (c : Conn) → Step kind c (on_close c)
  reads :
      (chunk : Bytes) (push_ok : Bool) (c : Conn)
      → c.pumping ≡ true
      → c.valid ≡ true
      → Step kind c (read_chunk chunk push_ok c)
  ends : (c : Conn) → c.pumping ≡ true → c.valid ≡ true → Step kind c (read_end c)
  waits : (c : Conn) → c.pumping ≡ true → c.valid ≡ true → Step kind c (read_nothing c)
  stops : (c : Conn) → c.valid ≡ false → Step kind c (pump_stop c)
  finishes : (c : Conn) → c.pumping ≡ false → Step kind c (finish c)

pub data Reachable (kind : Kind) : Conn → Type 0 where
  start : Reachable kind started
  step : (c d : Conn) → Reachable kind c → Step kind c d → Reachable kind d

unfoldable pub gather : (Act → List Bytes) → List Act → List Bytes
gather f [] = []
gather f (a ∷ log) = f a ++ gather f log

unfoldable pub taken : Act → List Bytes
taken (took chunk) = chunk ∷ []
taken took_end = []
taken (wrote b) = []
taken shut_write = []
taken sock_closed = []
taken (push_called b) = []
taken push_end_called = []
taken session_closed = []

unfoldable pub offered : Act → List Bytes
offered (took chunk) = []
offered took_end = []
offered (wrote b) = []
offered shut_write = []
offered sock_closed = []
offered (push_called b) = b ∷ []
offered push_end_called = []
offered session_closed = []

-- One empty text for each end of the local socket, and for each end that the tunnel is told.
unfoldable pub ended : Act → List Bytes
ended (took chunk) = []
ended took_end = [] ∷ []
ended (wrote b) = []
ended shut_write = []
ended sock_closed = []
ended (push_called b) = []
ended push_end_called = []
ended session_closed = []

unfoldable pub end_told : Act → List Bytes
end_told (took chunk) = []
end_told took_end = []
end_told (wrote b) = []
end_told shut_write = []
end_told sock_closed = []
end_told (push_called b) = []
end_told push_end_called = [] ∷ []
end_told session_closed = []

unfoldable pub head_of : Kind → List Bytes
head_of connect = []
head_of (plain_http head) = head ∷ []

abbrev pub marks : Bool → List Bytes
marks b = if b then [] ∷ [] else []

-- Before the session opens, what was read is pending, and an end is remembered; then all that was
-- read was handed to the tunnel, behind the head, and so was the end.
pub data IsOrdered (kind : Kind) (c : Conn) : Type 0 where
  waiting :
      c.opened ≡ false
      → gather offered c.log ≡ []
      → c.pending ≡ gather taken c.log
      → gather end_told c.log ≡ []
      → marks c.half_pending ≡ gather ended c.log
      → (c.pumping ≡ true → gather ended c.log ≡ [])
      → IsOrdered kind c
  flowing :
      c.opened ≡ true
      → c.pending ≡ []
      → gather offered c.log ≡ head_of kind ++ gather taken c.log
      → gather end_told c.log ≡ gather ended c.log
      → (c.pumping ≡ true → gather ended c.log ≡ [])
      → IsOrdered kind c
