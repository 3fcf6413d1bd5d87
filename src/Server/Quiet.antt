-- ===== src/Server/Quiet.antt =====
-- The operations that open no connection and take no new session.
pub mod Transfer
use github_codespaces_proxy.Base.{
  ℕ, zero, suc, ◌+◌, ◌≤◌, ◌≡◌, refl, sym, ◌∙◌, Bool, true, false, Option, none, some, ◌&&◌, ◌||◌,
  not, List, [], ◌∷◌, ◌++◌, arith, if◌then◌else◌, Bytes, All, All-append, length, ◌==◌, text_eq,
  codes,
}
use github_codespaces_proxy.Ssrf.Safety.{IsAllowed}
use github_codespaces_proxy.Protocol.Frame.{decode_data_frame}
use github_codespaces_proxy.Protocol.Json.{Doubles, JsonObject}
use github_codespaces_proxy.Base.Store.{erase_id, find_id, deref}
use github_codespaces_proxy.Server.State.{
  Session, Event, dialed, socket_written, socket_shut, socket_closed, text_sent, binary_sent, Net,
  ServerConfig, Manager, note, send_json, send_error, close_socket, finish_close, close_session,
}
use github_codespaces_proxy.Server.Transfer.{
  ReadResult, eof, failed, chunk, write_target, handle_data, half_close, handle_half_close,
  handle_close, forward, target_read, close_all, sweep_idle, destroy_each,
}

-- What may be done: any text that is handed to `connectTo` reads as an allowed address.
unfoldable pub IsSafe : Event → Type 0
IsSafe (dialed address port) = IsAllowed address
IsSafe (socket_written p bytes) = Unit {0}
IsSafe (socket_shut p) = Unit {0}
IsSafe (socket_closed p) = Unit {0}
IsSafe (text_sent t) = Unit {0}
IsSafe (binary_sent b) = Unit {0}

-- Entries only leave the map.
pub data Fewer : List (ℕ × ℕ) → List (ℕ × ℕ) → Type 0 where
  same : (a : List (ℕ × ℕ)) → Fewer a a
  erased : (id : ℕ) (a b : List (ℕ × ℕ)) → Fewer (erase_id id a) b → Fewer a b

Fewer-trans : (a b c : List (ℕ × ℕ)) → Fewer a b → Fewer b c → Fewer a c
Fewer-trans a b c (same d) k = k
Fewer-trans a b c (erased id d e h) k = erased id a c (Fewer-trans _ b c h k)

pub data IsQuiet : Manager → Manager → Type 0 where
  quiet :
      {m n : Manager}
      → Fewer m.sessions n.sessions
      → n.closed ≡ m.closed
      → (All IsSafe m.log → All IsSafe n.log)
      → IsQuiet m n

pub IsQuiet-self : (m : Manager) → IsQuiet m m
IsQuiet-self m = quiet (same _) refl (λ a. a)

pub IsQuiet-trans : {l m n : Manager} → IsQuiet l m → IsQuiet m n → IsQuiet l n
IsQuiet-trans (quiet f c s) (quiet g d t) = quiet (Fewer-trans _ _ _ f g) (d ∙ c) (λ a. t (s a))

-- Either branch of a test, and either case of an option.
pub IsQuiet-if :
    {m x y : Manager} (b : Bool) → IsQuiet m x → IsQuiet m y → IsQuiet m (if b then x else y)
IsQuiet-if true h k = h
IsQuiet-if false h k = k

pub IsQuiet-option :
    {A : Type 0} {m x : Manager} {f : A → Manager} (o : Option A)
    → IsQuiet m x
    → ((a : A) → IsQuiet m (f a))
    → IsQuiet m (elim o [ none ↦ x | some a ↦ f a ])
IsQuiet-option none h k = h
IsQuiet-option (some a) h k = k a

-- A change of the heap alone.
pub IsQuiet-heap : (m : Manager) (h : List Session) → IsQuiet m (record m { heap = h })
IsQuiet-heap m h = quiet (same _) refl (λ a. a)

pub IsQuiet-note : (e : Event) (m : Manager) → IsSafe e → IsQuiet m (note e m)
unfolding note
IsQuiet-note e m s = quiet (same _) refl (λ a. All-append IsSafe m.log (e ∷ []) a (s, tt))

pub send_json-IsQuiet : (net : Net) (t : Bytes) (m : Manager) → IsQuiet m (send_json net t m)
unfolding send_json IsSafe
send_json-IsQuiet net t m =
    IsQuiet-if (net.ws_open m.log) (IsQuiet-note (text_sent t) m tt) (IsQuiet-self m)

pub send_error-IsQuiet :
    (net : Net) (id : ℕ) (t : Bytes) (m : Manager) → IsQuiet m (send_error net id t m)
unfolding send_error
send_error-IsQuiet net id t m = send_json-IsQuiet net _ m

close_socket-IsQuiet : (p : ℕ) (s : Session) (m : Manager) → IsQuiet m (close_socket p s m)
unfolding close_socket IsSafe
close_socket-IsQuiet p s m =
    IsQuiet-if s.has_socket (IsQuiet-trans (IsQuiet-heap m _) (IsQuiet-note (socket_closed p) _ tt))
      (IsQuiet-self m)

pub finish_close-IsQuiet :
    (net : Net) (p : ℕ) (s : Session) (reason : Bytes) (notify : Bool) (m : Manager)
    → IsQuiet m (finish_close net p s reason notify m)
unfolding finish_close
finish_close-IsQuiet net p s reason notify m =
    IsQuiet-if notify (IsQuiet-trans (close_socket-IsQuiet p s m) (send_json-IsQuiet net _ _))
      (close_socket-IsQuiet p s m)

pub IsQuiet-erase :
    (id : ℕ) (m : Manager) → IsQuiet m (record m { sessions = erase_id id m.sessions })
IsQuiet-erase id m = quiet (erased id _ _ (same _)) refl (λ a. a)

pub close_session-IsQuiet :
    (net : Net) (p : ℕ) (reason : Bytes) (notify : Bool) (m : Manager)
    → IsQuiet m (close_session net p reason notify m)
unfolding close_session
close_session-IsQuiet net p reason notify m = IsQuiet-option (deref m.heap p) (IsQuiet-self m) (λ s.
    IsQuiet-option (find_id s.id m.sessions)
      (IsQuiet-if (text_eq reason (codes "manager stopped"))
        (finish_close-IsQuiet net p s reason notify m) (IsQuiet-self m))
      (λ q. IsQuiet-trans (IsQuiet-erase s.id m) (finish_close-IsQuiet net p s reason notify _)))
