-- ===== src/Server/Steps.antt =====
-- The threads of a `SessionManager` as a step relation: the WSS thread runs the handlers, one at a
-- time, and a `connect` in stages; the read loops, the idle sweep and the end come in between.
-- A read loop may run a round for any session, so more runs are considered than the code has.
pub mod Bounds
pub mod Limits
pub mod Safety
use github_codespaces_proxy.Base.{ℕ, ◌∷◌, [], Bytes}
use github_codespaces_proxy.Protocol.Json.{Doubles, JsonObject}
use github_codespaces_proxy.Server.State.{Net, ServerConfig, Manager, fresh}
use github_codespaces_proxy.Server.Connect.{Pending, idle, begin_connect, advance}
use github_codespaces_proxy.Server.Routing.{on_text}
use github_codespaces_proxy.Server.Transfer.{
  ReadResult, handle_data, handle_half_close, handle_close, target_read, sweep_idle, destroy_all,
  stop,
}

module _ (dbl : Doubles) (net : Net) (cfg : ServerConfig) where
  open dbl use {Double}

  pub data Step : Manager × Pending → Manager × Pending → Type 0 where
    connect :
        (m : Manager) (msg : JsonObject Double) → Step (m, idle) (begin_connect dbl net cfg msg m)
    text_message : (m : Manager) (bytes : Bytes) → Step (m, idle) (on_text dbl net cfg bytes m)
    stage : (m : Manager) (q : Pending) → Step (m, q) (advance net cfg q m)
    data_frame : (m : Manager) (bytes : Bytes) → Step (m, idle) (handle_data net bytes m, idle)
    half_close_message :
        (m : Manager) (msg : JsonObject Double)
        → Step (m, idle) (handle_half_close dbl net msg m, idle)
    close_message :
        (m : Manager) (msg : JsonObject Double) → Step (m, idle) (handle_close dbl net msg m, idle)
    read :
        (m : Manager) (q : Pending) (p : ℕ) (r : ReadResult)
        → Step (m, q) ((target_read net cfg p r m).0, q)
    sweep : (m : Manager) (q : Pending) → Step (m, q) (sweep_idle net cfg m, q)
    ended : (m : Manager) (q : Pending) (reason : Bytes) → Step (m, q) (destroy_all net reason m, q)
    stopping : (m : Manager) (q : Pending) → Step (m, q) (stop net m, q)

  -- The states that a fresh manager reaches.
  pub data Reachable : Manager × Pending → Type 0 where
    start : Reachable (fresh, idle)
    next : (a b : Manager × Pending) → Reachable a → Step a b → Reachable b
