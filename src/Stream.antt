-- ===== src/Stream.antt =====
-- `Stream::readUntil` of src/common/stream.cpp and `TcpSocket::readUntil` of src/common/tcpsocket.cpp,
-- which are the same text but for the call that reads. What the reads return is a list: a chunk of bytes for
-- each that succeeds, and its end for a read that fails, is closed or times out.
pub mod Split
use github_codespaces_proxy.Base.{
  ℕ, zero, suc, ◌+◌, Bool, true, false, Option, none, some, not, List, [], ◌∷◌, ◌++◌, ltb, ◌==◌,
  if◌then◌else◌, Bytes, find, take, length,
}

-- `text` is what was read before; the result is the text up to the end of the delimiter, with what
-- the stream still holds. What was read behind the delimiter is in neither.
unfoldable pub read_until : Bytes → ℕ → Bytes → List Bytes → Option (Bytes × List Bytes)
unfolding find
read_until delim max_bytes text_ [] = none
read_until delim max_bytes text_ (chunk ∷ reads) =
    let more = text_ ++ chunk in
    let later = read_until delim max_bytes more reads in
    let found : Option (Bytes × List Bytes) = elim (find delim more) [
      | some at ↦ some (take (at + length delim) more, reads)
      | none ↦ later
    ] in
    if ltb (length text_) max_bytes then found else none

-- `TcpSocket::readUntil`, the same loop over `readSome`.
abbrev pub socket_read_until : Bytes → ℕ → Bytes → List Bytes → Option (Bytes × List Bytes)
socket_read_until = read_until
