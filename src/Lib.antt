-- ===== src/Lib.antt =====
-- A proxy that tunnels TCP connections over one WebSocket: the client (src/client) takes connections
-- of local programs, and the server (src/server) opens the connections to their targets. Both use
-- src/common. Each connection is a session with a 32-bit id; its bytes travel as data frames with the
-- id in front, and JSON control messages open, half-close and close it. Before it connects, the
-- server checks every address of the target, which is meant to keep clients from internal addresses.
--
-- The files, by what they model:
--   Base         Boolean tests and tables of them, lists over the native numbers, texts as lists of bytes, numbers as
--                decimal and hexadecimal text, XOR of bytes, and the maps and heaps of the sessions.
--   Protocol     src/common/protocol.cpp, and the byte order helpers of src/common/util.hpp. Frame has
--                encodeDataFrame and decodeDataFrame, Json has jsonEscape and the Scanner, Message the
--                texts that client and server build by hand.
--   Ssrf         src/common/ssrf.cpp: the tables and inBlock (Blocks), parseIpv4 (Ipv4), ipv6ToBytes
--                (Ipv6), isBlockedIp and guardTarget (Guard). Cidr, Shape, Safety and Target prove.
--   WebSocket    src/common/websocket.cpp: the bytes of a frame (Frame), the state of a socket and
--                sendFrame (State), the sending calls (Send), runReadLoop (Read),
--                acceptKey (Accept), clientHandshake and connectClient (Handshake).
--   Stream       readUntil of src/common/stream.cpp, and that of src/common/tcpsocket.cpp, the same text.
--   Base64, Sha1, Util
--                src/common/base64.cpp, src/common/sha1.cpp, src/common/util.cpp, and std::stoi
--                (Util.Stoi) with the toInt of both main.cpp.
--   Server       src/server/session_manager.cpp: closeSession (State), handleConnect in stages
--                (Connect), the other handlers and the read loop of a target (Transfer), and the
--                threads as a step relation (Steps). Of src/server/main.cpp: the text handlers
--                (Routing), the count of connections by address (Counts), and the request head and
--                the admission of a connection (Upgrade).
--   Client       src/client/tunnel.cpp: allocId and the reconnect delay (State), openSession, push,
--                pushEnd and closeSession (Sessions), handleControl, onDisconnected and close
--                (Control), parseWsUrl (Url).
--                Server puts the two ends together.
--   Proxy        src/client/local_proxy.cpp: the targets of requests (Target), their heads and the
--                rebuilt request (Head), handleConn and the error replies (Request), the callbacks
--                and the pump of a connection (Pump).
--   Config       parseConfig (src/server/main.cpp) and parseConfigFile (src/client/main.cpp), which
--                are the same text; loadConfig and the options of both programs (Server, Client).
--   Updater      src/common/updater.cpp on Linux: compareVersion (Version), the redirects of
--                posixHttpsGet (Fetch), JsonParser (Json), selectAsset and maybeSelfUpdate
--                (Json.Asset), the command and the wait of applyUpdateLinux (Install).
--
-- State is passed explicitly: an operation takes the record of its object and returns the new one,
-- with what it did to its surroundings in a log. A shared pointer to a session is an index into a heap.
-- What the surroundings answer (clock, DNS, sockets, random bytes, whether a write succeeds) is a
-- parameter, a function of what was done before. `double` with strtod and its casts is one too.
--
-- Loops: the scanner, the frame reader and the read loop run on fuel, which is the length of the input
-- and one; each round takes a byte or more. sendBinary and the loop of Sha1::update run on the length of
-- what they are given, allocId on the number of tries that the code allows itself. isBlockedIp calls
-- itself once, so its fuel is two; the padding of SHA-1 ends within 64 rounds.
--
-- The loop of parseConfig runs on one round for each character left and one, the JSON parser of the
-- updater on two rounds for each character and two (a round at most goes down a level without taking
-- one), its strings on a round for each character and one. posixHttpsGet has six rounds, one request
-- each, since the sixth redirect is refused; the wait for the installation has the 120 of the code.
--
-- That a loop ends is stated without its fuel: as a finite run of rounds that the loop's own test ends
-- (IsRun in WebSocket.Loop and Config.Rounds), or for any result of a call that has no rounds left (the
-- JSON parser).
--
-- Not modelled: sockets and TLS (src/common/tcpsocket.cpp, src/common/stream.cpp but for readUntil),
-- which call the system and OpenSSL. So connectTo, which resolves the text that it is given once more, is
-- a parameter: a session manager's log has the text, not the address that was reached. The limits and
-- timeouts are natural numbers, negative ones are left out. The end of a session manager is one step,
-- though destroyAll sets its flag before it takes the lock. Neither modelled are listening, signals and
-- the log; the Windows part of the updater, its files and its child process. Locks are modelled by the steps between which other threads can
-- come in; the joining of threads is not. The callbacks and rounds of a connection of the local proxy
-- are whole steps in the relation of Pump; their stages are definitions of their own.
pub mod Base
pub mod Protocol
pub mod Ssrf
pub mod WebSocket
pub mod Sha1
pub mod Util
pub mod Base64
pub mod Client
pub mod Server
pub mod Proxy
pub mod Stream
pub mod Config
pub mod Updater
