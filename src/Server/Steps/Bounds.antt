-- ===== src/Server/Steps/Bounds.antt =====
-- The invariant of the session map: its size, and what can be in it after the end.
pub mod Stages
use github_codespaces_proxy.Base.{
  codes, ℕ, ◌+◌, ◌≤◌, ◌≡◌, refl, sym, ◌∙◌, Bool, true, false, Option, none, some, not, List, [],
  ◌∷◌, arith, if◌then◌else◌, Bytes, length, leb, text_eq,
}
use github_codespaces_proxy.Server.Routing.{on_text, on_typed}
use github_codespaces_proxy.Protocol.Json.{lookup, parse_control_message, Doubles, JsonObject}
use github_codespaces_proxy.Ssrf.Guard.{guard_target}
use github_codespaces_proxy.Base.Store.{
  erase_id-length, put_id-length, erase_id, put_id, find_id, update,
}
use github_codespaces_proxy.Server.State.{
  Net, ServerConfig, Manager, fresh, note, send_error, dialed,
}
use github_codespaces_proxy.Server.Connect.{
  Pending, idle, checked, guarding, dialing, connected, Target, mode_tcp_over_wss, connect_target,
  check_connect, begin_connect, register, guard_connect, dial, announce, advance, drop_socket,
}
use github_codespaces_proxy.Server.Transfer.{destroy_all, stop}
use github_codespaces_proxy.Server.Quiet.{
  Fewer, same, erased, IsQuiet, quiet, IsQuiet-trans, IsQuiet-if, IsQuiet-option, IsQuiet-heap,
  send_json-IsQuiet, send_error-IsQuiet, close_session-IsQuiet,
}
use github_codespaces_proxy.Server.Quiet.Transfer.{
  handle_data-IsQuiet, handle_half_close-IsQuiet, handle_close-IsQuiet, target_read-IsQuiet,
  sweep_idle-IsQuiet, destroy_each-IsQuiet,
}
use github_codespaces_proxy.Server.Steps.{
  Step, connect, text_message, stage, data_frame, half_close_message, close_message, read, sweep,
  ended, stopping, Reachable, start, next,
}

-- The place that the pending session will take.
unfoldable pub reserved : Pending → ℕ
reserved idle = 0
reserved (checked t) = 1
reserved (guarding p t) = 0
reserved (dialing p t address) = 0
reserved (connected p id) = 0

-- The entries that no pending `connect` will take away.
unfoldable pub remaining : Pending → List (ℕ × ℕ) → List (ℕ × ℕ)
unfolding erase_id
remaining idle l = l
remaining (checked t) l = l
remaining (guarding p t) l = erase_id t.session_id l
remaining (dialing p t address) l = l
remaining (connected p id) l = l

Fewer-length : (a b : List (ℕ × ℕ)) → Fewer a b → length b ≤ length a
Fewer-length a b (same c) = omega arith
Fewer-length a b (erased id c d h) = omega (arith, erase_id-length id a, Fewer-length _ b h)

erase_id-nil : (i j : ℕ) (l : List (ℕ × ℕ)) → erase_id i l ≡ [] → erase_id i (erase_id j l) ≡ []
unfolding erase_id
erase_id-nil i j [] h = refl
erase_id-nil i j ((k, p) ∷ l) h = ground arith

remaining-erase_id :
    (q : Pending) (id : ℕ) (a : List (ℕ × ℕ))
    → remaining q a ≡ []
    → remaining q (erase_id id a) ≡ []
unfolding remaining erase_id
remaining-erase_id idle id a h = rw h refl
remaining-erase_id (checked t) id a h = rw h refl
remaining-erase_id (guarding p t) id a h = erase_id-nil t.session_id id a h
remaining-erase_id (dialing p t address) id a h = rw h refl
remaining-erase_id (connected p k) id a h = rw h refl

remaining-Fewer :
    (q : Pending) (a b : List (ℕ × ℕ)) → Fewer a b → remaining q a ≡ [] → remaining q b ≡ []
remaining-Fewer q a b (same c) h = h
remaining-Fewer q a b (erased id c d f) h = remaining-Fewer q _ b f (remaining-erase_id q id a h)

-- There is room for what is in the map and for what is about to enter; after the end, only a pending
-- `connect` can have an entry.
pub data IsBounded (cfg : ServerConfig) : Manager × Pending → Type 0 where
  bounded :
      {m : Manager} {q : Pending}
      → length m.sessions + reserved q ≤ cfg.max_sessions_per_connection
      → (m.closed ≡ true → remaining q m.sessions ≡ [])
      → IsBounded cfg (m, q)

pub IsBounded-quiet :
    (cfg : ServerConfig) (m n : Manager) (q : Pending)
    → IsQuiet m n
    → IsBounded cfg (m, q)
    → IsBounded cfg (n, q)
IsBounded-quiet cfg m n q (quiet f c s) (bounded h k) =
    bounded (omega (arith, Fewer-length _ _ f)) (λ e. remaining-Fewer q _ _ f (k (sym c ∙ e)))

-- A pending `connect` that has no entry, or whose entry stays, is over.
pub IsBounded-over :
    (cfg : ServerConfig) (m : Manager) (q : Pending)
    → ((l : List (ℕ × ℕ)) → remaining q l ≡ l)
    → IsBounded cfg (m, q)
    → IsBounded cfg (m, idle)
unfolding remaining reserved
IsBounded-over cfg m q g (bounded h k) = bounded (omega arith) (λ e. sym (g m.sessions) ∙ k e)

pub IsBounded-if :
    (cfg : ServerConfig) {x y : Manager × Pending} (b : Bool)
    → (b ≡ true → IsBounded cfg x)
    → (b ≡ false → IsBounded cfg y)
    → IsBounded cfg (if b then x else y)
IsBounded-if cfg true h k = h refl
IsBounded-if cfg false h k = k refl

pub IsBounded-option :
    (cfg : ServerConfig) {A : Type 0} {x : Manager × Pending} {f : A → Manager × Pending}
    (o : Option A)
    → IsBounded cfg x
    → ((a : A) → IsBounded cfg (f a))
    → IsBounded cfg (elim o [ none ↦ x | some a ↦ f a ])
IsBounded-option cfg none h k = h
IsBounded-option cfg (some a) h k = k a

pub IsBounded-error :
    (net : Net) (cfg : ServerConfig) (id : ℕ) (text : Bytes) (m : Manager)
    → IsBounded cfg (m, idle)
    → IsBounded cfg (send_error net id text m, idle)
IsBounded-error net cfg id text m b =
    IsBounded-quiet cfg m _ idle (send_error-IsQuiet net id text m) b
