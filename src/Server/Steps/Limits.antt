-- ===== src/Server/Steps/Limits.antt =====
-- The size of the session map, and that nothing is left in it after the end, in every state that a
-- fresh `SessionManager` reaches.
use github_codespaces_proxy.Base.{◌≤◌, ◌≡◌, refl, true, [], arith, length}
use github_codespaces_proxy.Protocol.Json.{Doubles}
use github_codespaces_proxy.Server.State.{Net, ServerConfig, Manager, fresh}
use github_codespaces_proxy.Server.Connect.{Pending, idle}
use github_codespaces_proxy.Server.Quiet.Transfer.{
  handle_data-IsQuiet, handle_half_close-IsQuiet, handle_close-IsQuiet, target_read-IsQuiet,
  sweep_idle-IsQuiet,
}
use github_codespaces_proxy.Server.Steps.{
  Step, connect, text_message, stage, data_frame, half_close_message, close_message, read, sweep,
  ended, stopping, Reachable, start, next,
}
use github_codespaces_proxy.Server.Steps.Bounds.{
  reserved, remaining, IsBounded, IsBounded-quiet, bounded,
}
use github_codespaces_proxy.Server.Steps.Bounds.Stages.{
  begin_connect-IsBounded, advance-IsBounded, destroy_all-IsBounded, stop-IsBounded,
  on_text-IsBounded,
}

module _ (dbl : Doubles) (net : Net) (cfg : ServerConfig) where
  step-IsBounded :
      (a b : Manager × Pending) → Step dbl net cfg a b → IsBounded cfg a → IsBounded cfg b
  step-IsBounded a b (connect m msg) h = begin_connect-IsBounded dbl net cfg msg m h
  step-IsBounded a b (text_message m bytes) h = on_text-IsBounded dbl net cfg bytes m h
  step-IsBounded a b (stage m q) h = advance-IsBounded net cfg q m h
  step-IsBounded a b (data_frame m bytes) h =
      IsBounded-quiet cfg m _ idle (handle_data-IsQuiet net bytes m) h
  step-IsBounded a b (half_close_message m msg) h =
      IsBounded-quiet cfg m _ idle (handle_half_close-IsQuiet dbl net msg m) h
  step-IsBounded a b (close_message m msg) h =
      IsBounded-quiet cfg m _ idle (handle_close-IsQuiet dbl net msg m) h
  step-IsBounded a b (read m q p r) h =
      IsBounded-quiet cfg m _ q (target_read-IsQuiet net cfg p r m) h
  step-IsBounded a b (sweep m q) h = IsBounded-quiet cfg m _ q (sweep_idle-IsQuiet net cfg m) h
  step-IsBounded a b (ended m q reason) h = destroy_all-IsBounded net cfg q reason m h
  step-IsBounded a b (stopping m q) h = stop-IsBounded net cfg q m h

  Reachable-IsBounded : (a : Manager × Pending) → Reachable dbl net cfg a → IsBounded cfg a
  unfolding fresh reserved remaining
  Reachable-IsBounded a start = bounded (omega arith) (λ e. refl)
  Reachable-IsBounded b (next a _ r s) = step-IsBounded a b s (Reachable-IsBounded a r)

  bounds_of :
      (m : Manager) (q : Pending)
      → IsBounded cfg (m, q)
      → length m.sessions ≤ cfg.max_sessions_per_connection
  bounds_of m q (bounded h k) = omega arith

  nothing_left : (m : Manager) → IsBounded cfg (m, idle) → m.closed ≡ true → m.sessions ≡ []
  unfolding remaining
  nothing_left m (bounded h k) e = k e

  -- In every reachable state of a session manager, whatever comes in between the stages of a
  -- connect, the map holds at most as many sessions as the configuration allows.
  pub Reachable-limit :
      (m : Manager) (q : Pending)
      → Reachable dbl net cfg (m, q)
      → length m.sessions ≤ cfg.max_sessions_per_connection
  Reachable-limit m q r = bounds_of m q (Reachable-IsBounded (m, q) r)

  -- In every reachable state in which the manager is closed and no connect is under way, the
  -- session map is empty.
  pub Reachable-closed :
      (m : Manager) → Reachable dbl net cfg (m, idle) → m.closed ≡ true → m.sessions ≡ []
  Reachable-closed m r e = nothing_left m (Reachable-IsBounded (m, idle) r) e
