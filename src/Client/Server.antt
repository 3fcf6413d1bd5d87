-- ===== src/Client/Server.antt =====
-- The two ends together: what the server makes of the messages of the client's `openSession` and of its
-- data frames.
use github_codespaces_proxy.Base.{ℕ, ◌≡◌, refl, ◌∙◌, some, Bytes, to_string, text_eq}
use github_codespaces_proxy.Protocol.Json.{◌>>=◌, Doubles, lookup, parse_control_message}
use github_codespaces_proxy.Protocol.Message.{connect_message}
use github_codespaces_proxy.Protocol.Message.RoundTrip.{
  connect_object, parse_control_message-connect_message,
}
use github_codespaces_proxy.Server.Connect.{
  number_field, text_field, connect_target, mode_tcp_over_wss,
}

module _ (dbl : Doubles) where
  connect_target-connect_object :
      (id : ℕ) (host : Bytes) (port : ℕ)
      → connect_target dbl (connect_object dbl id host port)
        ≡ some (record {
          session_id = dbl.to_u32 (dbl.strtod (to_string id));
          host = host;
          port = dbl.to_u16 (dbl.strtod (to_string port));
          mode = mode_tcp_over_wss;
        })
  unfolding connect_target number_field text_field lookup text_eq
  connect_target-connect_object id host port = refl

  -- What the server reads from the text of the client's connect is the session, the host, with any
  -- bytes in it, and the port that the client wrote, if strtod and the casts give back the two
  -- numbers from their decimal digits.
  pub connect_target-connect_message :
      (id : ℕ) (host : Bytes) (port : ℕ)
      → dbl.to_u32 (dbl.strtod (to_string id)) ≡ id
      → dbl.to_u16 (dbl.strtod (to_string port)) ≡ port
      → (parse_control_message dbl (connect_message id host port) >>= connect_target dbl)
        ≡ some (record { session_id = id; host = host; port = port; mode = mode_tcp_over_wss })
  connect_target-connect_message id host port h k =
      rw (parse_control_message-connect_message dbl id host port)
        (connect_target-connect_object id host port ∙ rw (h, k) refl)
