-- ===== src/Server/Quiet/Transfer.antt =====
-- Data, half-close, close, the read loop, the sweep and the end open no connection.
use github_codespaces_proxy.Base.{
  ℕ, ◌≡◌, refl, Bool, true, false, Option, none, some, ◌||◌, not, List, [], ◌∷◌, if◌then◌else◌,
  Bytes, codes,
}
use github_codespaces_proxy.Protocol.Frame.{decode_data_frame, encode_data_frame}
use github_codespaces_proxy.Protocol.Json.{Doubles, JsonObject}
use github_codespaces_proxy.Server.Connect.{number_field}
use github_codespaces_proxy.Base.Store.{find_id, deref, update}
use github_codespaces_proxy.Server.State.{
  Session, socket_written, socket_shut, binary_sent, Net, ServerConfig, Manager,
}
use github_codespaces_proxy.Server.Transfer.{
  ReadResult, eof, failed, chunk, touch, half_closed, session_of, write_target, handle_data,
  half_close, handle_half_close, handle_close, is_idle, forward, target_read, close_all,
  idle_sessions, sweep_idle, destroy_each,
}
use github_codespaces_proxy.Server.Quiet.{
  IsSafe, IsQuiet, IsQuiet-self, IsQuiet-trans, IsQuiet-if, IsQuiet-option, IsQuiet-heap,
  IsQuiet-note, finish_close-IsQuiet, close_session-IsQuiet,
}

write_target-IsQuiet :
    (net : Net) (p : ℕ) (s : Session) (payload : Bytes) (m : Manager)
    → IsQuiet m (write_target net p s payload m)
unfolding write_target IsSafe
write_target-IsQuiet net p s payload m =
    IsQuiet-if (not s.has_socket || s.uplink_closed) (IsQuiet-self m) (
      IsQuiet-trans (IsQuiet-heap m (update (touch (net.now_ms m.log)) m.heap p)) (
        IsQuiet-if (net.write_ok m.log p payload) (IsQuiet-note (socket_written p payload) _ tt)
          (close_session-IsQuiet net p _ true _)))

pub handle_data-IsQuiet :
    (net : Net) (bytes : Bytes) (m : Manager) → IsQuiet m (handle_data net bytes m)
unfolding handle_data
handle_data-IsQuiet net bytes m = IsQuiet-if m.closed (IsQuiet-self m) (
    IsQuiet-option (decode_data_frame bytes) (IsQuiet-self m) (λ frame.
      IsQuiet-option (session_of frame.session_id m) (IsQuiet-self m)
        (λ e. write_target-IsQuiet net e.0 e.1 frame.payload m)))

half_close-IsQuiet :
    (net : Net) (p : ℕ) (s : Session) (m : Manager) → IsQuiet m (half_close net p s m)
unfolding half_close IsSafe
half_close-IsQuiet net p s m =
    IsQuiet-trans (IsQuiet-heap m (update (half_closed (net.now_ms m.log)) m.heap p))
      (IsQuiet-if s.has_socket (IsQuiet-note (socket_shut p) _ tt) (IsQuiet-self _))

pub handle_half_close-IsQuiet :
    (dbl : Doubles) (net : Net) (msg : JsonObject dbl.Double) (m : Manager)
    → IsQuiet m (handle_half_close dbl net msg m)
unfolding handle_half_close
handle_half_close-IsQuiet dbl net msg m = IsQuiet-if m.closed (IsQuiet-self m) (
    IsQuiet-option (number_field dbl (codes "sessionId") msg) (IsQuiet-self m) (λ n.
      IsQuiet-option (session_of (dbl.to_u32 n) m) (IsQuiet-self m)
        (λ e. half_close-IsQuiet net e.0 e.1 m)))

pub handle_close-IsQuiet :
    (dbl : Doubles) (net : Net) (msg : JsonObject dbl.Double) (m : Manager)
    → IsQuiet m (handle_close dbl net msg m)
unfolding handle_close
handle_close-IsQuiet dbl net msg m =
    IsQuiet-option (number_field dbl (codes "sessionId") msg) (IsQuiet-self m) (λ n.
      IsQuiet-option (find_id (dbl.to_u32 n) m.sessions) (IsQuiet-self m)
        (λ p. close_session-IsQuiet net p _ false m))

IsQuiet-if_fst :
    {m : Manager} (x y : Manager × Bool) (b : Bool)
    → IsQuiet m x.0
    → IsQuiet m y.0
    → IsQuiet m (if b then x else y).0
IsQuiet-if_fst x y true h k = h
IsQuiet-if_fst x y false h k = k

forward-IsQuiet :
    (net : Net) (p : ℕ) (s : Session) (bytes : Bytes) (m : Manager)
    → IsQuiet m (forward net p s bytes m).0
unfolding forward IsSafe
forward-IsQuiet net p s bytes m =
    let touched = IsQuiet-heap m (update (touch (net.now_ms m.log)) m.heap p) in
    IsQuiet-if_fst _ _ (not (net.ws_open m.log))
      (IsQuiet-trans touched (close_session-IsQuiet net p _ false _))
      (IsQuiet-if_fst _ _ (net.binary_ok m.log (encode_data_frame s.id bytes))
        (IsQuiet-trans touched (IsQuiet-note (binary_sent (encode_data_frame s.id bytes)) _ tt))
        (IsQuiet-trans touched (close_session-IsQuiet net p _ false _)))

IsQuiet-read :
    (net : Net) (cfg : ServerConfig) (p : ℕ) (r : ReadResult) (m : Manager) (o : Option Session)
    → deref m.heap p ≡ o
    → IsQuiet m (target_read net cfg p r m).0
unfolding target_read
IsQuiet-read net cfg p r m none e =
    rw e (IsQuiet-if_fst _ _ m.stopped (IsQuiet-self m) (IsQuiet-self m))
IsQuiet-read net cfg p eof m (some s) e = rw e (
    IsQuiet-if_fst _ _ m.stopped (IsQuiet-self m) (
      IsQuiet-if_fst _ _ (not s.has_socket) (IsQuiet-self m)
        (close_session-IsQuiet net p _ true m)))
IsQuiet-read net cfg p failed m (some s) e = rw e (
    IsQuiet-if_fst _ _ m.stopped (IsQuiet-self m) (
      IsQuiet-if_fst _ _ (not s.has_socket) (IsQuiet-self m) (
        IsQuiet-if_fst _ _ (is_idle cfg (net.now_ms m.log) s) (close_session-IsQuiet net p _ true m)
          (IsQuiet-self m))))
IsQuiet-read net cfg p (chunk bytes) m (some s) e = rw e (
    IsQuiet-if_fst _ _ m.stopped (IsQuiet-self m)
      (IsQuiet-if_fst _ _ (not s.has_socket) (IsQuiet-self m) (forward-IsQuiet net p s bytes m)))

pub target_read-IsQuiet :
    (net : Net) (cfg : ServerConfig) (p : ℕ) (r : ReadResult) (m : Manager)
    → IsQuiet m (target_read net cfg p r m).0
target_read-IsQuiet net cfg p r m = IsQuiet-read net cfg p r m (deref m.heap p) refl

close_all-IsQuiet :
    (net : Net) (ps : List ℕ) (reason : Bytes) (m : Manager) → IsQuiet m (close_all net ps reason m)
unfolding close_all
close_all-IsQuiet net [] reason m = IsQuiet-self m
close_all-IsQuiet net (p ∷ ps) reason m =
    IsQuiet-trans (close_session-IsQuiet net p reason true m) (close_all-IsQuiet net ps reason _)

pub sweep_idle-IsQuiet :
    (net : Net) (cfg : ServerConfig) (m : Manager) → IsQuiet m (sweep_idle net cfg m)
unfolding sweep_idle
sweep_idle-IsQuiet net cfg m =
    close_all-IsQuiet net (idle_sessions cfg (net.now_ms m.log) m.heap m.sessions) _ m

pub destroy_each-IsQuiet :
    (net : Net) (all_ : List (ℕ × ℕ)) (reason : Bytes) (m : Manager)
    → IsQuiet m (destroy_each net all_ reason m)
unfolding destroy_each
destroy_each-IsQuiet net [] reason m = IsQuiet-self m
destroy_each-IsQuiet net ((id, p) ∷ all_) reason m =
    IsQuiet-trans
      (IsQuiet-option (deref m.heap p) (IsQuiet-self m)
        (λ s. finish_close-IsQuiet net p s reason true m))
      (destroy_each-IsQuiet net all_ reason _)
