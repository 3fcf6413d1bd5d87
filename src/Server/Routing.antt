-- ===== src/Server/Routing.antt =====
-- The text handlers of src/server/main.cpp, first the one that `handleConnection` sets. Its check of a `connect`
-- leads to `handleConnect` on both branches.
use github_codespaces_proxy.Base.{ℕ, none, some, ◌++◌, if◌then◌else◌, Bytes, codes, text_eq}
use github_codespaces_proxy.Protocol.Json.{Doubles, JsonObject, lookup, parse_control_message}
use github_codespaces_proxy.Protocol.Message.{error_message}
use github_codespaces_proxy.Server.State.{Net, ServerConfig, Manager, send_json}
use github_codespaces_proxy.Server.Connect.{Pending, idle, begin_connect, number_field}
use github_codespaces_proxy.Server.Transfer.{handle_half_close, handle_close}

abbrev pub session_id_or_zero : (dbl : Doubles) → JsonObject dbl.Double → ℕ
session_id_or_zero dbl msg = elim (number_field dbl (codes "sessionId") msg) [
  | none ↦ 0
  | some n ↦ dbl.to_u32 n
]

unfoldable pub on_typed :
    (dbl : Doubles)
    → Net
    → ServerConfig
    → Bytes
    → JsonObject dbl.Double
    → Manager
    → Manager × Pending
unfolding begin_connect handle_half_close handle_close send_json number_field
on_typed dbl net cfg type msg m =
    if text_eq type (codes "connect")
    then begin_connect dbl net cfg msg m
    else if text_eq type (codes "half-close")
    then (handle_half_close dbl net msg m, idle)
    else if text_eq type (codes "close")
    then (handle_close dbl net msg m, idle)
    else (
      send_json net (error_message (session_id_or_zero dbl msg) (codes "unknown type: " ++ type)) m,
      idle,
    )

unfoldable pub on_text : (dbl : Doubles) → Net → ServerConfig → Bytes → Manager → Manager × Pending
unfolding lookup on_typed
on_text dbl net cfg text m = elim (parse_control_message dbl text) [
  | none ↦ (m, idle)
  | some msg ↦ elim (lookup (codes "type") msg) [
    | none ↦ (m, idle)
    | some v ↦ on_typed dbl net cfg v.str msg m
  ]
]

-- The text handler that the TLS branch of `main` sets: other types are passed over.
unfoldable pub on_typed_tls :
    (dbl : Doubles)
    → Net
    → ServerConfig
    → Bytes
    → JsonObject dbl.Double
    → Manager
    → Manager × Pending
unfolding begin_connect handle_half_close handle_close
on_typed_tls dbl net cfg type msg m =
    if text_eq type (codes "connect")
    then begin_connect dbl net cfg msg m
    else if text_eq type (codes "half-close")
    then (handle_half_close dbl net msg m, idle)
    else if text_eq type (codes "close")
    then (handle_close dbl net msg m, idle)
    else (m, idle)

unfoldable pub on_text_tls :
    (dbl : Doubles) → Net → ServerConfig → Bytes → Manager → Manager × Pending
unfolding lookup on_typed_tls
on_text_tls dbl net cfg text m = elim (parse_control_message dbl text) [
  | none ↦ (m, idle)
  | some msg ↦ elim (lookup (codes "type") msg) [
    | none ↦ (m, idle)
    | some v ↦ on_typed_tls dbl net cfg v.str msg m
  ]
]
