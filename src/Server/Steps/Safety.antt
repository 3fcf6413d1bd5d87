-- ===== src/Server/Steps/Safety.antt =====
-- The address texts that a `SessionManager` hands to `connectTo`, in every state that a fresh one reaches.
use github_codespaces_proxy.Base.{
  codes, ℕ, ◌≡◌, ◌≢◌, refl, Bool, true, false, Option, none, some, not, List, [], ◌∷◌,
  if◌then◌else◌, Bytes, length, leb, text_eq, All, All-append, arith,
}
use github_codespaces_proxy.Server.Routing.{on_text, on_typed}
use github_codespaces_proxy.Protocol.Json.{lookup, parse_control_message, Doubles, JsonObject}
use github_codespaces_proxy.Ssrf.Guard.{guard_target}
use github_codespaces_proxy.Ssrf.Safety.{IsAllowed}
use github_codespaces_proxy.Ssrf.Target.{guard_target_safe}
use github_codespaces_proxy.Base.Store.{find_id}
use github_codespaces_proxy.Server.State.{Net, ServerConfig, Manager, fresh, note, dialed}
use github_codespaces_proxy.Server.Connect.{
  Pending, idle, checked, guarding, dialing, connected, Target, mode_tcp_over_wss, connect_target,
  check_connect, begin_connect, register, guard_connect, dial, advance, first_or, override_host,
}
use github_codespaces_proxy.Server.Transfer.{destroy_all, stop}
use github_codespaces_proxy.Server.Quiet.{
  IsSafe, IsQuiet, quiet, IsQuiet-self, IsQuiet-trans, send_json-IsQuiet, send_error-IsQuiet,
  close_session-IsQuiet, IsQuiet-erase,
}
use github_codespaces_proxy.Server.Quiet.Transfer.{
  handle_data-IsQuiet, handle_half_close-IsQuiet, handle_close-IsQuiet, target_read-IsQuiet,
  sweep_idle-IsQuiet, destroy_each-IsQuiet,
}
use github_codespaces_proxy.Server.Steps.{
  Step, connect, text_message, stage, data_frame, half_close_message, close_message, read, sweep,
  ended, stopping, Reachable, start, next,
}
use github_codespaces_proxy.Server.Steps.Bounds.Stages.{announce-IsQuiet}

-- The address that a pending `connect` is about to dial.
unfoldable pub WillBeSafe : Pending → Type 0
WillBeSafe idle = Unit {0}
WillBeSafe (checked t) = Unit {0}
WillBeSafe (guarding p t) = Unit {0}
WillBeSafe (dialing p t address) = IsAllowed address
WillBeSafe (connected p id) = Unit {0}

-- Every address dialed so far, and the next one, is allowed.
data IsGuarded : Manager × Pending → Type 0 where
  guarded : {m : Manager} {q : Pending} → All IsSafe m.log → WillBeSafe q → IsGuarded (m, q)

IsGuarded-quiet :
    (m n : Manager) (q q' : Pending)
    → IsQuiet m n
    → WillBeSafe q'
    → IsGuarded (m, q)
    → IsGuarded (n, q')
IsGuarded-quiet m n q q' (quiet f c s) w (guarded a v) = guarded (s a) w

IsGuarded-same : (m n : Manager) (q : Pending) → IsQuiet m n → IsGuarded (m, q) → IsGuarded (n, q)
IsGuarded-same m n q (quiet f c s) (guarded a v) = guarded (s a) v

IsGuarded-if :
    {x y : Manager × Pending} (b : Bool)
    → (b ≡ true → IsGuarded x)
    → (b ≡ false → IsGuarded y)
    → IsGuarded (if b then x else y)
IsGuarded-if true h k = h refl
IsGuarded-if false h k = k refl

IsGuarded-option :
    {A : Type 0} {x : Manager × Pending} {f : A → Manager × Pending} (o : Option A)
    → IsGuarded x
    → ((a : A) → IsGuarded (f a))
    → IsGuarded (elim o [ none ↦ x | some a ↦ f a ])
IsGuarded-option none h k = h
IsGuarded-option (some a) h k = k a

check_connect-IsGuarded :
    (net : Net) (cfg : ServerConfig) (t : Target) (m : Manager)
    → IsGuarded (m, idle)
    → IsGuarded (check_connect net cfg t m)
unfolding check_connect WillBeSafe
check_connect-IsGuarded net cfg t m b =
    IsGuarded-if m.closed (λ e. b)
      (λ e.
        IsGuarded-option (find_id t.session_id m.sessions)
          (IsGuarded-if (leb cfg.max_sessions_per_connection (length m.sessions))
            (λ f. IsGuarded-same m _ idle (send_error-IsQuiet net t.session_id _ m) b)
            (λ f.
              IsGuarded-if (not (text_eq t.mode mode_tcp_over_wss))
                (λ g. IsGuarded-same m _ idle (send_error-IsQuiet net t.session_id _ m) b)
                (λ g. IsGuarded-quiet m m idle (checked t) (IsQuiet-self m) tt b)))
          (λ p. IsGuarded-same m _ idle (send_error-IsQuiet net t.session_id _ m) b))

begin_connect-IsGuarded :
    (dbl : Doubles) (net : Net) (cfg : ServerConfig) (msg : JsonObject dbl.Double) (m : Manager)
    → IsGuarded (m, idle)
    → IsGuarded (begin_connect dbl net cfg msg m)
unfolding begin_connect
begin_connect-IsGuarded dbl net cfg msg m b =
    IsGuarded-option (connect_target dbl msg)
      (IsGuarded-same m _ idle (send_json-IsQuiet net _ m) b)
      (λ t. check_connect-IsGuarded net cfg t m b)

-- The first of the addresses that the guard hands over.
first_or-IsAllowed :
    (addresses : List Bytes) (host : Bytes)
    → (addresses ≢ []) × All IsAllowed addresses
    → IsAllowed (first_or addresses host)
first_or-IsAllowed [] host h = absurd (h.0 refl)
first_or-IsAllowed (a ∷ addresses) host h = (h.1).0

override_host-none :
    (cfg : ServerConfig) (address host : Bytes)
    → cfg.connect_override ≡ none
    → override_host cfg address host ≡ address
override_host-none cfg address host h = rw h refl

guard_connect-IsGuarded :
    (net : Net) (cfg : ServerConfig) (p : ℕ) (t : Target) (m : Manager)
    → cfg.connect_override ≡ none
    → IsGuarded (m, guarding p t)
    → IsGuarded (guard_connect net cfg p t m)
unfolding guard_connect WillBeSafe
guard_connect-IsGuarded net cfg p t m o b =
    let q : Pending = guarding p t in
    let failing =
      send_error-IsQuiet net t.session_id (guard_target t.host (net.lookup_all m.log)).reason m in
    IsGuarded-if m.closed (λ e. IsGuarded-quiet m _ q idle (IsQuiet-erase t.session_id m) tt b)
      (λ e.
        IsGuarded-if (not (guard_target t.host (net.lookup_all m.log)).ok)
          (λ g.
            IsGuarded-quiet m _ q idle (IsQuiet-trans failing (IsQuiet-erase t.session_id _)) tt b)
          (λ g.
            IsGuarded-quiet m m q _ (IsQuiet-self m)
              (rw (override_host-none cfg _ t.host o) (
                first_or-IsAllowed (guard_target t.host (net.lookup_all m.log)).addresses t.host
                  (guard_target_safe t.host (net.lookup_all m.log) (ground arith))))
              b))

dial-IsGuarded :
    (net : Net) (p : ℕ) (t : Target) (address : Bytes) (m : Manager)
    → IsGuarded (m, dialing p t address)
    → IsGuarded (dial net p t address m)
unfolding dial note WillBeSafe IsSafe
dial-IsGuarded net p t address m (guarded a w) =
    let safe = All-append IsSafe m.log (dialed address t.port ∷ []) a (w, tt) in
    IsGuarded-if (net.connect_ok m.log address t.port) (λ e. guarded safe tt)
      (λ e.
        IsGuarded-same (note (dialed address t.port) m) _ idle
          (IsQuiet-trans (send_error-IsQuiet net t.session_id _ _)
            (close_session-IsQuiet net p _ false _))
          (guarded safe tt))

advance-IsGuarded :
    (net : Net) (cfg : ServerConfig) (q : Pending) (m : Manager)
    → cfg.connect_override ≡ none
    → IsGuarded (m, q)
    → IsGuarded (advance net cfg q m)
unfolding advance WillBeSafe register
advance-IsGuarded net cfg idle m o b = b
advance-IsGuarded net cfg (checked t) m o (guarded a w) = guarded a tt
advance-IsGuarded net cfg (guarding p t) m o b = guard_connect-IsGuarded net cfg p t m o b
advance-IsGuarded net cfg (dialing p t address) m o b = dial-IsGuarded net p t address m b
advance-IsGuarded net cfg (connected p id) m o b =
    IsGuarded-quiet m _ (connected p id) idle (announce-IsQuiet net p id m) tt b

destroy_all-IsGuarded :
    (net : Net) (q : Pending) (reason : Bytes) (m : Manager)
    → IsGuarded (m, q)
    → IsGuarded (destroy_all net reason m, q)
unfolding destroy_all
destroy_all-IsGuarded net q reason m (guarded a w) =
    IsGuarded-same (record m { closed = true; sessions = [] }) _ q
      (destroy_each-IsQuiet net m.sessions reason _) (guarded a w)

IsGuarded-if_state :
    {x y : Manager} (q : Pending) (b : Bool)
    → IsGuarded (x, q)
    → IsGuarded (y, q)
    → IsGuarded (if b then x else y, q)
IsGuarded-if_state q true h k = h
IsGuarded-if_state q false h k = k

stop-IsGuarded :
    (net : Net) (q : Pending) (m : Manager) → IsGuarded (m, q) → IsGuarded (stop net m, q)
unfolding stop
stop-IsGuarded net q m (guarded a w) =
    IsGuarded-if_state q m.stopped (guarded a w)
      (destroy_all-IsGuarded net q _ (record m { stopped = true }) (guarded a w))

on_text-IsGuarded :
    (dbl : Doubles) (net : Net) (cfg : ServerConfig) (bytes : Bytes) (m : Manager)
    → IsGuarded (m, idle)
    → IsGuarded (on_text dbl net cfg bytes m)
unfolding on_text on_typed
on_text-IsGuarded dbl net cfg bytes m b =
    IsGuarded-option (parse_control_message dbl bytes) b (λ msg.
      IsGuarded-option (lookup (codes "type") msg) b (λ v.
        IsGuarded-if (text_eq v.str (codes "connect"))
          (λ e. begin_connect-IsGuarded dbl net cfg msg m b)
          (λ e.
            IsGuarded-if (text_eq v.str (codes "half-close"))
              (λ g. IsGuarded-same m _ idle (handle_half_close-IsQuiet dbl net msg m) b)
              (λ g.
                IsGuarded-if (text_eq v.str (codes "close"))
                  (λ k. IsGuarded-same m _ idle (handle_close-IsQuiet dbl net msg m) b)
                  (λ k. IsGuarded-same m _ idle (send_json-IsQuiet net _ m) b)))))

module _ (dbl : Doubles) (net : Net) (cfg : ServerConfig) where
  step-IsGuarded :
      (a b : Manager × Pending)
      → cfg.connect_override ≡ none
      → Step dbl net cfg a b
      → IsGuarded a
      → IsGuarded b
  step-IsGuarded a b o (connect m msg) h = begin_connect-IsGuarded dbl net cfg msg m h
  step-IsGuarded a b o (text_message m bytes) h = on_text-IsGuarded dbl net cfg bytes m h
  step-IsGuarded a b o (stage m q) h = advance-IsGuarded net cfg q m o h
  step-IsGuarded a b o (data_frame m bytes) h =
      IsGuarded-same m _ idle (handle_data-IsQuiet net bytes m) h
  step-IsGuarded a b o (half_close_message m msg) h =
      IsGuarded-same m _ idle (handle_half_close-IsQuiet dbl net msg m) h
  step-IsGuarded a b o (close_message m msg) h =
      IsGuarded-same m _ idle (handle_close-IsQuiet dbl net msg m) h
  step-IsGuarded a b o (read m q p r) h = IsGuarded-same m _ q (target_read-IsQuiet net cfg p r m) h
  step-IsGuarded a b o (sweep m q) h = IsGuarded-same m _ q (sweep_idle-IsQuiet net cfg m) h
  step-IsGuarded a b o (ended m q reason) h = destroy_all-IsGuarded net q reason m h
  step-IsGuarded a b o (stopping m q) h = stop-IsGuarded net q m h

  Reachable-IsGuarded :
      (a : Manager × Pending) → cfg.connect_override ≡ none → Reachable dbl net cfg a → IsGuarded a
  unfolding fresh WillBeSafe
  Reachable-IsGuarded a o start = guarded tt tt
  Reachable-IsGuarded b o (next a _ r s) = step-IsGuarded a b o s (Reachable-IsGuarded a o r)

  log_of : (m : Manager) (q : Pending) → IsGuarded (m, q) → All IsSafe m.log
  log_of m q (guarded a w) = a

  -- In every reachable state of a session manager without the test override, in any order of its
  -- threads and whatever the DNS answers and the client sends, every text that connectTo was given
  -- is, as isBlockedIp reads it, an address outside the forbidden ranges. What connectTo makes of
  -- the text, which it resolves again, is no part of this.
  pub Reachable-IsSafe :
      (m : Manager) (q : Pending)
      → cfg.connect_override ≡ none
      → Reachable dbl net cfg (m, q)
      → All IsSafe m.log
  Reachable-IsSafe m q o r = log_of m q (Reachable-IsGuarded (m, q) o r)
