-- ===== src/WebSocket/Frame.antt =====
-- One frame on the wire: what `WebSocket::sendFrame` builds and `WsImpl::runReadLoop` takes apart.
-- Bit fields that share no bit are joined by `+` for `|`, and read by `/` and `%` for `>>` and `&`.
pub mod RoundTrip
use github_codespaces_proxy.Base.{
  ℕ, zero, suc, ◌+◌, ◌*◌, ◌-◌, ◌/◌, ◌%◌, ◌^◌, ◌<◌, ◌≡◌, Bool, true, false, Option, none, some, ◌||◌,
  ◌&&◌, not, List, [], ◌∷◌, ◌++◌, ltb, leb, ◌==◌, if◌then◌else◌, Bytes, length, take, drop, get_or,
  bit_xor,
}

abbrev pub op_continuation : ℕ
op_continuation = 0x0

abbrev pub op_text : ℕ
op_text = 0x1

abbrev pub op_binary : ℕ
op_binary = 0x2

abbrev pub op_close : ℕ
op_close = 0x8

abbrev pub op_ping : ℕ
op_ping = 0x9

abbrev pub op_pong : ℕ
op_pong = 0xA

abbrev pub max_payload : ℕ
max_payload = 64 * 1024 * 1024

abbrev flag : Bool → ℕ
flag b = if b then 0x80 else 0

-- `payload[i] ^= key[i % 4]` from index i on; sending and receiving use the same loop.
unfoldable pub apply_mask : Bytes → ℕ → Bytes → Bytes
apply_mask key i [] = []
apply_mask key i (x ∷ xs) = bit_xor x (get_or key (i % 4) 0) ∷ apply_mask key (i + 1) xs

-- Seven bits of length, or a marker with 16 or 64 bits behind it.
unfoldable pub length_bytes : Bool → ℕ → Bytes
length_bytes mask len =
    if ltb len 126
    then (flag mask + len) ∷ []
    else if leb len 0xFFFF
    then (flag mask + 126) ∷ (len / 2 ^ 8 % 256) ∷ (len % 256) ∷ []
    else (flag mask + 127)
      ∷ (len / 2 ^ 56 % 256)
      ∷ (len / 2 ^ 48 % 256)
      ∷ (len / 2 ^ 40 % 256)
      ∷ (len / 2 ^ 32 % 256)
      ∷ (len / 2 ^ 24 % 256)
      ∷ (len / 2 ^ 16 % 256)
      ∷ (len / 2 ^ 8 % 256)
      ∷ (len % 256)
      ∷ []

-- The frame that `sendFrame` hands to `writeRaw`; `key` is used on the client's side alone.
unfoldable pub frame_bytes : Bool → ℕ → Bytes → Bool → Bytes → Bytes
unfolding length_bytes apply_mask
frame_bytes server_side opcode payload fin key =
    (flag fin + opcode % 16)
    ∷ (length_bytes (not server_side) (length payload)
        ++ (if server_side then payload else key ++ apply_mask key 0 payload))

-- `readFull`: all of n bytes, or the stream has ended.
unfoldable pub read_full : ℕ → Bytes → Option (Bytes × Bytes)
read_full n input = if ltb (length input) n then none else some (take n input, drop n input)

-- What one round of the loop reads.
pub data Read : Type 0 where
  ended too_large : Read
  frame : Bool → ℕ → Bytes → Bytes → Read

abbrev pub or_ended {ℓ} : {A : Type ℓ} → Option A → (A → Read) → Read
or_ended none f = ended
or_ended (some a) f = f a

-- `payloadLen = (payloadLen << 8) | ext[i]`; at most eight bytes, so nothing is shifted out.
unfoldable pub big_endian : ℕ → Bytes → ℕ
big_endian acc [] = acc
big_endian acc (x ∷ xs) = big_endian (acc * 256 + x) xs

unfoldable pub extended_length : ℕ → Bytes → Option (ℕ × Bytes)
unfolding read_full big_endian
extended_length len7 input =
    if len7 == 126
    then (elim (read_full 2 input) [
      | none ↦ none
      | some (ext, rest) ↦ some (big_endian 0 ext, rest)
    ])
    else if len7 == 127
    then (elim (read_full 8 input) [
      | none ↦ none
      | some (ext, rest) ↦ some (big_endian 0 ext, rest)
    ])
    else some (len7, input)

-- Mask key, if any, and payload.
unfoldable pub read_payload : Bool → ℕ → Bool → ℕ → Bytes → Read
unfolding read_full apply_mask
read_payload fin opcode masked len input =
    if masked
    then (or_ended (read_full 4 input)
        λ r. or_ended (read_full len r.1) λ q. frame fin opcode (apply_mask r.0 0 q.0) q.1)
    else or_ended (read_full len input) λ q. frame fin opcode q.0 q.1

unfoldable pub read_head : ℕ → ℕ → Bytes → Read
unfolding extended_length read_payload
read_head h0 h1 input = or_ended (extended_length (h1 % 128) input) λ r.
    if ltb max_payload r.0
    then too_large
    else read_payload (h0 / 128 % 2 == 1) (h0 % 16) (h1 / 128 % 2 == 1) r.0 r.1

unfoldable pub read_frame : Bytes → Read
unfolding read_head
read_frame [] = ended
read_frame (h0 ∷ []) = ended
read_frame (h0 ∷ h1 ∷ input) = read_head h0 h1 input
