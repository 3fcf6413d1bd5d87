-- ===== src/Protocol/Message.antt =====
-- The control messages that the two sides build by hand: src/client/tunnel.cpp and
-- src/server/session_manager.cpp, and `controlMessage` of src/common/protocol.cpp.
pub mod Parse
pub mod RoundTrip
use github_codespaces_proxy.Base.{ℕ, List, [], ◌∷◌, ◌++◌, Bytes, codes, to_string}
use github_codespaces_proxy.Protocol.Json.{json_escape}

-- `WssTunnel::openSession`.
unfoldable pub connect_message : ℕ → Bytes → ℕ → Bytes
connect_message id host port =
    codes "{\"type\":\"connect\",\"sessionId\":"
    ++ (to_string id
        ++ (codes ",\"host\":\""
            ++ (json_escape host
                ++ (codes "\",\"port\":"
                    ++ (to_string port ++ codes ",\"mode\":\"tcp-over-wss\"}")))))

-- `WssTunnel::pushEnd`.
unfoldable pub half_close_message : ℕ → Bytes
half_close_message id =
    codes "{\"type\":\"half-close\",\"sessionId\":" ++ (to_string id ++ codes "}")

-- `WssTunnel::closeSession`.
unfoldable pub close_message : ℕ → Bytes
close_message id = codes "{\"type\":\"close\",\"sessionId\":" ++ (to_string id ++ codes "}")

-- `SessionManager::handleConnect`, at its end.
unfoldable pub connected_message : ℕ → Bytes
connected_message id = codes "{\"type\":\"connected\",\"sessionId\":" ++ (to_string id ++ codes "}")

-- `SessionManager::closeSession` and `destroyAll`.
unfoldable pub closed_message : ℕ → Bytes → Bytes
closed_message id reason =
    codes "{\"type\":\"close\",\"sessionId\":"
    ++ (to_string id ++ (codes ",\"reason\":\"" ++ (json_escape reason ++ codes "\"}")))

-- `SessionManager::sendError`.
unfoldable pub error_message : ℕ → Bytes → Bytes
error_message id message =
    codes "{\"type\":\"error\",\"sessionId\":"
    ++ (to_string id ++ (codes ",\"message\":\"" ++ (json_escape message ++ codes "\"}")))

-- The fields of `controlMessage`, in the order in which the map is walked.
unfoldable pub field_texts : List (Bytes × Bytes) → Bytes
field_texts [] = codes "}"
field_texts ((k, v) ∷ fields) =
    codes ",\""
    ++ (json_escape k ++ (codes "\":\"" ++ (json_escape v ++ (codes "\"" ++ field_texts fields))))

unfoldable pub control_message : Bytes → List (Bytes × Bytes) → Bytes
control_message type fields =
    codes "{\"type\":\"" ++ (json_escape type ++ (codes "\"" ++ field_texts fields))
