-- ===== src/Server/Steps/Bounds/Stages.antt =====
-- Every stage of a `connect`, the text handler and the end keep the session map in its bounds.
use github_codespaces_proxy.Base.{
  codes, ℕ, ◌≡◌, refl, Bool, true, false, not, List, [], arith, if◌then◌else◌, Bytes, length, leb,
  text_eq,
}
use github_codespaces_proxy.Server.Routing.{on_text, on_typed}
use github_codespaces_proxy.Protocol.Json.{lookup, parse_control_message, Doubles, JsonObject}
use github_codespaces_proxy.Ssrf.Guard.{guard_target}
use github_codespaces_proxy.Base.Store.{
  erase_id-length, put_id-length, erase_id, put_id, find_id, update,
}
use github_codespaces_proxy.Server.State.{Net, ServerConfig, Manager, note, dialed}
use github_codespaces_proxy.Server.Connect.{
  Pending, idle, checked, guarding, dialing, connected, Target, mode_tcp_over_wss, connect_target,
  check_connect, begin_connect, register, guard_connect, dial, announce, advance, drop_socket,
}
use github_codespaces_proxy.Server.Transfer.{destroy_all, stop}
use github_codespaces_proxy.Server.Quiet.{
  IsQuiet, IsQuiet-trans, IsQuiet-if, IsQuiet-option, IsQuiet-heap, send_json-IsQuiet,
  send_error-IsQuiet, close_session-IsQuiet,
}
use github_codespaces_proxy.Server.Quiet.Transfer.{
  handle_half_close-IsQuiet, handle_close-IsQuiet, destroy_each-IsQuiet,
}
use github_codespaces_proxy.Server.Steps.Bounds.{
  reserved, remaining, IsBounded, IsBounded-quiet, IsBounded-over, IsBounded-if, IsBounded-option,
  IsBounded-error, bounded,
}

check_connect-IsBounded :
    (net : Net) (cfg : ServerConfig) (t : Target) (m : Manager)
    → IsBounded cfg (m, idle)
    → IsBounded cfg (check_connect net cfg t m)
unfolding check_connect reserved remaining
check_connect-IsBounded net cfg t m b =
    IsBounded-if cfg m.closed (λ e. b)
      (λ e.
        IsBounded-option cfg (find_id t.session_id m.sessions)
          (IsBounded-if cfg (leb cfg.max_sessions_per_connection (length m.sessions))
            (λ f. IsBounded-error net cfg t.session_id _ m b)
            (λ f.
              IsBounded-if cfg (not (text_eq t.mode mode_tcp_over_wss))
                (λ g. IsBounded-error net cfg t.session_id _ m b)
                (λ g. bounded (ground arith) (λ c. absurd cc))))
          (λ p. IsBounded-error net cfg t.session_id _ m b))

pub begin_connect-IsBounded :
    (dbl : Doubles) (net : Net) (cfg : ServerConfig) (msg : JsonObject dbl.Double) (m : Manager)
    → IsBounded cfg (m, idle)
    → IsBounded cfg (begin_connect dbl net cfg msg m)
unfolding begin_connect
begin_connect-IsBounded dbl net cfg msg m b =
    IsBounded-option cfg (connect_target dbl msg)
      (IsBounded-quiet cfg m _ idle (send_json-IsQuiet net _ m) b)
      (λ t. check_connect-IsBounded net cfg t m b)

-- A new entry is the one that its own `connect` takes away again.
pub erase_id-put_id : (id p : ℕ) (l : List (ℕ × ℕ)) → l ≡ [] → erase_id id (put_id id p l) ≡ []
unfolding erase_id put_id
erase_id-put_id id p l h = rw h (ground arith)

register-IsBounded :
    (net : Net) (cfg : ServerConfig) (t : Target) (m : Manager)
    → IsBounded cfg (m, checked t)
    → IsBounded cfg (register net t m)
unfolding register reserved remaining
register-IsBounded net cfg t m (bounded h k) =
    bounded (omega (arith, put_id-length t.session_id (length m.heap) m.sessions))
      (λ e. erase_id-put_id t.session_id (length m.heap) m.sessions (k e))

-- The session's own entry is taken out, whatever was said before.
IsBounded-gone :
    (cfg : ServerConfig) (p : ℕ) (t : Target) (m : Manager)
    → IsBounded cfg (m, guarding p t)
    → IsBounded cfg (record m { sessions = erase_id t.session_id m.sessions }, idle)
unfolding reserved remaining
IsBounded-gone cfg p t m (bounded h k) =
    bounded (omega (arith, erase_id-length t.session_id m.sessions)) k

guard_connect-IsBounded :
    (net : Net) (cfg : ServerConfig) (p : ℕ) (t : Target) (m : Manager)
    → IsBounded cfg (m, guarding p t)
    → IsBounded cfg (guard_connect net cfg p t m)
unfolding guard_connect reserved
guard_connect-IsBounded net cfg p t m b =
    IsBounded-if cfg m.closed (λ e. IsBounded-gone cfg p t m b)
      (λ e.
        IsBounded-if cfg (not (guard_target t.host (net.lookup_all m.log)).ok)
          (λ g.
            IsBounded-gone cfg p t _
              (IsBounded-quiet cfg m _ (guarding p t) (send_error-IsQuiet net t.session_id _ m) b))
          (λ g. elim b [ bounded h k ↦ bounded h (λ c. absurd cc) ]))

dial-IsBounded :
    (net : Net) (cfg : ServerConfig) (p : ℕ) (t : Target) (address : Bytes) (m : Manager)
    → IsBounded cfg (m, dialing p t address)
    → IsBounded cfg (dial net p t address m)
unfolding dial note reserved remaining
dial-IsBounded net cfg p t address m (bounded h k) =
    IsBounded-if cfg (net.connect_ok m.log address t.port) (λ e. bounded h k)
      (λ e.
        IsBounded-quiet cfg (note (dialed address t.port) m) _ idle
          (IsQuiet-trans (send_error-IsQuiet net t.session_id _ _)
            (close_session-IsQuiet net p _ false _))
          (bounded h k))

pub announce-IsQuiet : (net : Net) (p id : ℕ) (m : Manager) → IsQuiet m (announce net p id m)
unfolding announce
announce-IsQuiet net p id m =
    let gone = IsQuiet-heap m (update drop_socket m.heap p) in
    IsQuiet-if m.closed gone
      (IsQuiet-option (find_id id m.sessions) gone (λ q. send_json-IsQuiet net _ m))

pub advance-IsBounded :
    (net : Net) (cfg : ServerConfig) (q : Pending) (m : Manager)
    → IsBounded cfg (m, q)
    → IsBounded cfg (advance net cfg q m)
unfolding advance remaining
advance-IsBounded net cfg idle m b = b
advance-IsBounded net cfg (checked t) m b = register-IsBounded net cfg t m b
advance-IsBounded net cfg (guarding p t) m b = guard_connect-IsBounded net cfg p t m b
advance-IsBounded net cfg (dialing p t address) m b = dial-IsBounded net cfg p t address m b
advance-IsBounded net cfg (connected p id) m b =
    IsBounded-quiet cfg m _ idle (announce-IsQuiet net p id m)
      (IsBounded-over cfg m (connected p id) (λ l. refl) b)

-- The end empties the map, and it stays empty but for a `connect` on its way.
remaining-nil : (q : Pending) → remaining q [] ≡ []
unfolding remaining erase_id
remaining-nil idle = refl
remaining-nil (checked t) = refl
remaining-nil (guarding p t) = refl
remaining-nil (dialing p t address) = refl
remaining-nil (connected p id) = refl

pub destroy_all-IsBounded :
    (net : Net) (cfg : ServerConfig) (q : Pending) (reason : Bytes) (m : Manager)
    → IsBounded cfg (m, q)
    → IsBounded cfg (destroy_all net reason m, q)
unfolding destroy_all
destroy_all-IsBounded net cfg q reason m (bounded h k) =
    IsBounded-quiet cfg (record m { closed = true; sessions = [] }) _ q
      (destroy_each-IsQuiet net m.sessions reason _) (bounded (omega arith) (λ e. remaining-nil q))

IsBounded-if_state :
    (cfg : ServerConfig) {x y : Manager} (q : Pending) (b : Bool)
    → IsBounded cfg (x, q)
    → IsBounded cfg (y, q)
    → IsBounded cfg (if b then x else y, q)
IsBounded-if_state cfg q true h k = h
IsBounded-if_state cfg q false h k = k

pub stop-IsBounded :
    (net : Net) (cfg : ServerConfig) (q : Pending) (m : Manager)
    → IsBounded cfg (m, q)
    → IsBounded cfg (stop net m, q)
unfolding stop
stop-IsBounded net cfg q m (bounded h k) =
    IsBounded-if_state cfg q m.stopped (bounded h k)
      (destroy_all-IsBounded net cfg q _ (record m { stopped = true }) (bounded h k))

pub on_text-IsBounded :
    (dbl : Doubles) (net : Net) (cfg : ServerConfig) (bytes : Bytes) (m : Manager)
    → IsBounded cfg (m, idle)
    → IsBounded cfg (on_text dbl net cfg bytes m)
unfolding on_text on_typed
on_text-IsBounded dbl net cfg bytes m b =
    IsBounded-option cfg (parse_control_message dbl bytes) b (λ msg.
      IsBounded-option cfg (lookup (codes "type") msg) b (λ v.
        IsBounded-if cfg (text_eq v.str (codes "connect"))
          (λ e. begin_connect-IsBounded dbl net cfg msg m b)
          (λ e.
            IsBounded-if cfg (text_eq v.str (codes "half-close"))
              (λ g. IsBounded-quiet cfg m _ idle (handle_half_close-IsQuiet dbl net msg m) b)
              (λ g.
                IsBounded-if cfg (text_eq v.str (codes "close"))
                  (λ k. IsBounded-quiet cfg m _ idle (handle_close-IsQuiet dbl net msg m) b)
                  (λ k. IsBounded-quiet cfg m _ idle (send_json-IsQuiet net _ m) b)))))
