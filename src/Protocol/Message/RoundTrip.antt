-- ===== src/Protocol/Message/RoundTrip.antt =====
-- The receiver's parse of the messages that the other side builds.
use github_codespaces_proxy.Base.{
  ℕ, suc, ◌≡◌, refl, ◌∙◌, false, some, [], ◌∷◌, ◌++◌, Bytes, codes, to_string, text_eq, is_digit,
  is_empty,
}
use github_codespaces_proxy.Protocol.Json.{
  json_escape, escape_byte, Doubles, JsonObject, insert, lookup, is_number_char, text_value,
  number_value, members, check_type, parse_control_message,
}
use github_codespaces_proxy.Protocol.Message.{
  connect_message, half_close_message, close_message, connected_message, closed_message,
  error_message,
}
use github_codespaces_proxy.Protocol.Message.Parse.{
  to_string-Digits, member-number, member-string, members-more, members-last, parse_object-members,
}

module _ (dbl : Doubles) where
  open dbl use {Double}

  -- What the server reads from the client's `connect`.
  abbrev pub connect_object : ℕ → Bytes → ℕ → JsonObject Double
  connect_object id host port =
      (codes "type", text_value dbl (codes "connect"))
      ∷ (codes "sessionId", number_value dbl (to_string id))
      ∷ (codes "host", text_value dbl host)
      ∷ (codes "port", number_value dbl (to_string port))
      ∷ (codes "mode", text_value dbl (codes "tcp-over-wss"))
      ∷ []

  connect_members :
      (f id : ℕ) (host : Bytes) (port : ℕ)
      → members dbl
          (suc (suc (suc (suc (suc f)))))
          (codes "\"type\":\"connect\",\"sessionId\":"
            ++ (to_string id
                ++ (codes ",\"host\":\""
                    ++ (json_escape host
                        ++ (codes "\",\"port\":"
                            ++ (to_string port ++ codes ",\"mode\":\"tcp-over-wss\"}"))))))
          []
        ≡ some (connect_object id host port)
  unfolding json_escape escape_byte is_number_char is_digit insert text_eq
  connect_members f id host port =
      members-more dbl _ _ _ (codes "type") _ []
        (member-string dbl (codes "type") (codes "connect") _)
      ∙ members-more dbl _ _ _ (codes "sessionId") _ _
          (member-number dbl (codes "sessionId") _ (to_string-Digits id) refl)
      ∙ members-more dbl _ _ _ (codes "host") _ _ (member-string dbl (codes "host") host _)
      ∙ members-more dbl _ _ _ (codes "port") _ _
          (member-number dbl (codes "port") _ (to_string-Digits port) refl)
      ∙ members-last dbl _ _ [] (codes "mode") _ _
          (member-string dbl (codes "mode") (codes "tcp-over-wss") _)

  -- What the client reads from a message that the server sends about a session.
  abbrev pub notice_object : Bytes → ℕ → JsonObject Double
  notice_object type id =
      (codes "type", text_value dbl type)
      ∷ (codes "sessionId", number_value dbl (to_string id))
      ∷ []

  -- The same with a text at its end: the reason of a `close`, the message of an `error`.
  abbrev pub text_notice_object : Bytes → ℕ → Bytes → Bytes → JsonObject Double
  text_notice_object type id key text =
      (codes "type", text_value dbl type)
      ∷ (codes "sessionId", number_value dbl (to_string id))
      ∷ (key, text_value dbl text)
      ∷ []

  notice_members :
      (f : ℕ) (type : Bytes) (id : ℕ)
      → members dbl
          (suc (suc f))
          (codes "\"type\":\""
            ++ (json_escape type ++ (codes "\",\"sessionId\":" ++ (to_string id ++ codes "}"))))
          []
        ≡ some (notice_object type id)
  unfolding json_escape escape_byte is_number_char is_digit insert text_eq
  notice_members f type id =
      members-more dbl _ _ _ (codes "type") _ [] (member-string dbl (codes "type") type _)
      ∙ members-last dbl _ _ [] (codes "sessionId") _ _
          (member-number dbl (codes "sessionId") _ (to_string-Digits id) refl)

  text_notice_members :
      (f : ℕ) (type : Bytes) (id : ℕ) (key text : Bytes)
      → text_eq (codes "type") key ≡ false
      → text_eq (codes "sessionId") key ≡ false
      → members dbl
          (suc (suc (suc f)))
          (codes "\"type\":\""
            ++ (json_escape type
                ++ (codes "\",\"sessionId\":"
                    ++ (to_string id
                        ++ (codes ",\""
                            ++ (json_escape key
                                ++ (codes "\":\"" ++ (json_escape text ++ codes "\"}"))))))))
          []
        ≡ some (text_notice_object type id key text)
  unfolding json_escape escape_byte is_number_char is_digit insert text_eq
  text_notice_members f type id key text h k =
      members-more dbl _ _ _ (codes "type") _ [] (member-string dbl (codes "type") type _)
      ∙ members-more dbl _ _ _ (codes "sessionId") _ _
          (member-number dbl (codes "sessionId") _ (to_string-Digits id) refl)
      ∙ members-last dbl _ _ [] key _ _ (member-string dbl key text _)
      ∙ rw (h, k) refl

  -- The server reads every `connect` that the client builds, for any host text, as that session, host
  -- and port.
  pub parse_control_message-connect_message :
      (id : ℕ) (host : Bytes) (port : ℕ)
      → parse_control_message dbl (connect_message id host port)
        ≡ some (connect_object id host port)
  unfolding parse_control_message connect_message check_type lookup text_eq is_empty
  parse_control_message-connect_message id host port =
      rw (parse_object-members dbl _, connect_members _ id host port) refl

  parse_control_message-half_close_message :
      (id : ℕ)
      → parse_control_message dbl (half_close_message id)
        ≡ some (notice_object (codes "half-close") id)
  unfolding parse_control_message half_close_message check_type lookup text_eq is_empty json_escape
      escape_byte
  parse_control_message-half_close_message id =
      rw (parse_object-members dbl _, notice_members _ (codes "half-close") id) refl

  parse_control_message-close_message :
      (id : ℕ)
      → parse_control_message dbl (close_message id) ≡ some (notice_object (codes "close") id)
  unfolding parse_control_message close_message check_type lookup text_eq is_empty json_escape
      escape_byte
  parse_control_message-close_message id =
      rw (parse_object-members dbl _, notice_members _ (codes "close") id) refl

  parse_control_message-connected_message :
      (id : ℕ)
      → parse_control_message dbl (connected_message id)
        ≡ some (notice_object (codes "connected") id)
  unfolding parse_control_message connected_message check_type lookup text_eq is_empty json_escape
      escape_byte
  parse_control_message-connected_message id =
      rw (parse_object-members dbl _, notice_members _ (codes "connected") id) refl

  parse_control_message-closed_message :
      (id : ℕ) (reason : Bytes)
      → parse_control_message dbl (closed_message id reason)
        ≡ some (text_notice_object (codes "close") id (codes "reason") reason)
  unfolding parse_control_message closed_message check_type lookup text_eq is_empty json_escape
      escape_byte
  parse_control_message-closed_message id reason =
      rw
        (
          parse_object-members dbl _,
          text_notice_members _ (codes "close") id (codes "reason") reason refl refl,
        )
        refl

  parse_control_message-error_message :
      (id : ℕ) (message : Bytes)
      → parse_control_message dbl (error_message id message)
        ≡ some (text_notice_object (codes "error") id (codes "message") message)
  unfolding parse_control_message error_message check_type lookup text_eq is_empty json_escape
      escape_byte
  parse_control_message-error_message id message =
      rw
        (
          parse_object-members dbl _,
          text_notice_members _ (codes "error") id (codes "message") message refl refl,
        )
        refl

  -- The server reads the half-close and the close that the client builds as those of the same
  -- session, with nothing else in them.
  pub server_reads_client_notices :
      (id : ℕ)
      → (parse_control_message dbl (half_close_message id)
          ≡ some (notice_object (codes "half-close") id))
        × (parse_control_message dbl (close_message id) ≡ some (notice_object (codes "close") id))
  server_reads_client_notices id =
      (parse_control_message-half_close_message id, parse_control_message-close_message id)

  -- The client reads the server's connected, close and error as those of the same session, and the
  -- reason and the error text, whatever bytes they hold, as the server wrote them.
  pub client_reads_server_notices :
      (id : ℕ) (text : Bytes)
      → (parse_control_message dbl (connected_message id)
          ≡ some (notice_object (codes "connected") id))
        × (parse_control_message dbl (closed_message id text)
            ≡ some (text_notice_object (codes "close") id (codes "reason") text))
        × (parse_control_message dbl (error_message id text)
            ≡ some (text_notice_object (codes "error") id (codes "message") text))
  client_reads_server_notices id text = (
    parse_control_message-connected_message id,
    parse_control_message-closed_message id text,
    parse_control_message-error_message id text,
  )
