-- ===== src/WebSocket/Frame/RoundTrip.antt =====
-- The reader takes back each frame that the sender writes.
use github_codespaces_proxy.Base.{
  ℕ, zero, suc, ◌+◌, ◌/◌, ◌%◌, ◌^◌, ◌≤◌, ◌<◌, ◌≡◌, refl, sym, ap, Bool, true, false, some, [], ◌∷◌,
  ◌++◌, arith, ltb, leb, ◌==◌, if◌then◌else◌, Bytes, IsByte, All, length, get_or, take-append_exact,
  drop-append_exact, length-append, Bool-cases, inl, inr, append_assoc,
}
use github_codespaces_proxy.Base.Bits.{bit_xor_twice}
use github_codespaces_proxy.WebSocket.Frame.{
  apply_mask, length_bytes, frame_bytes, read_full, frame, extended_length, read_payload, read_head,
  read_frame, max_payload,
}

get_or-IsByte : (key : Bytes) (i : ℕ) → All IsByte key → IsByte (get_or key i 0)
get_or-IsByte [] i h = omega arith
get_or-IsByte (k ∷ ks) zero h = h.0
get_or-IsByte (k ∷ ks) (suc i) h = get_or-IsByte ks i h.1

-- Masking twice with the same key gives the payload back.
pub apply_mask_twice :
    (key : Bytes) (i : ℕ) (payload : Bytes)
    → All IsByte key
    → All IsByte payload
    → apply_mask key i (apply_mask key i payload) ≡ payload
unfolding apply_mask
apply_mask_twice key i [] hk hp = refl
apply_mask_twice key i (x ∷ xs) hk hp = cc (
  bit_xor_twice x (get_or key (i % 4) 0) hp.0 (get_or-IsByte key (i % 4) hk),
  apply_mask_twice key (i + 1) xs hk hp.1,
)

pub length-apply_mask :
    (key : Bytes) (i : ℕ) (xs : Bytes) → length (apply_mask key i xs) ≡ length xs
unfolding apply_mask
length-apply_mask key i [] = refl
length-apply_mask key i (x ∷ xs) = ap suc (length-apply_mask key (i + 1) xs)

read_full_exact :
    (n : ℕ) (xs rest : Bytes) → n ≡ length xs → read_full n (xs ++ rest) ≡ some (xs, rest)
unfolding read_full
read_full_exact n xs rest e =
    ground
      (arith, length-append xs rest, take-append_exact xs rest n e, drop-append_exact xs rest n e)

extended_length_small :
    (len : ℕ) (rest : Bytes) → len < 126 → extended_length len rest ≡ some (len, rest)
unfolding extended_length
extended_length_small len rest h = ground arith

extended_length_16 :
    (len : ℕ) (rest : Bytes)
    → len < 2 ^ 16
    → extended_length 126 ((len / 2 ^ 8 % 256) ∷ (len % 256) ∷ rest) ≡ some (len, rest)
unfolding extended_length
extended_length_16 len rest h = ground arith

abbrev eight_bytes : ℕ → Bytes → Bytes
eight_bytes len rest =
    (len / 2 ^ 56 % 256)
    ∷ (len / 2 ^ 48 % 256)
    ∷ (len / 2 ^ 40 % 256)
    ∷ (len / 2 ^ 32 % 256)
    ∷ (len / 2 ^ 24 % 256)
    ∷ (len / 2 ^ 16 % 256)
    ∷ (len / 2 ^ 8 % 256)
    ∷ (len % 256)
    ∷ rest

extended_length_64 :
    (len : ℕ) (rest : Bytes)
    → len < 2 ^ 64
    → extended_length 127 (eight_bytes len rest) ≡ some (len, rest)
unfolding extended_length
extended_length_64 len rest h = ground arith

read_payload_plain :
    (fin : Bool) (opcode : ℕ) (payload rest : Bytes)
    → read_payload fin opcode false (length payload) (payload ++ rest)
      ≡ frame fin opcode payload rest
unfolding read_payload
read_payload_plain fin opcode payload rest =
    rw (read_full_exact (length payload) payload rest refl) refl

read_payload_masked :
    (fin : Bool) (opcode : ℕ) (key payload rest : Bytes)
    → length key ≡ 4
    → All IsByte key
    → All IsByte payload
    → read_payload fin opcode true (length payload) (key ++ (apply_mask key 0 payload ++ rest))
      ≡ frame fin opcode payload rest
unfolding read_payload
read_payload_masked fin opcode key payload rest l hk hp =
    rw
      (
        read_full_exact 4 key (apply_mask key 0 payload ++ rest) (sym l),
        read_full_exact (length payload) (apply_mask key 0 payload) rest
            (sym (length-apply_mask key 0 payload)),
        apply_mask_twice key 0 payload hk hp,
      )
      refl

abbrev mask_flag : Bool → ℕ
mask_flag mask = if mask then 0x80 else 0

mask_bit : (mask : Bool) (n : ℕ) → n < 128 → ((mask_flag mask + n) / 128 % 2 == 1) ≡ mask
mask_bit true n h = ground arith
mask_bit false n h = ground arith

mask_low : (mask : Bool) (n : ℕ) → n < 128 → (mask_flag mask + n) % 128 ≡ n
mask_low true n h = omega arith
mask_low false n h = omega arith

-- The second byte `n7` with the length that stands behind it.
read_head_length :
    (h0 : ℕ) (mask : Bool) (n7 : ℕ) (ext : Bytes) (len : ℕ) (input : Bytes)
    → n7 < 128
    → len ≤ max_payload
    → extended_length n7 ext ≡ some (len, input)
    → read_head h0 (mask_flag mask + n7) ext
      ≡ read_payload (h0 / 128 % 2 == 1) (h0 % 16) mask len input
unfolding read_head
read_head_length h0 mask n7 ext len input h k e =
    rw (mask_low mask n7 h, e, mask_bit mask n7 h)
      (let big : ltb max_payload len ≡ false = ground arith in rw big refl)

read_frame_length :
    (h0 : ℕ) (mask : Bool) (len : ℕ) (input : Bytes)
    → len ≤ max_payload
    → read_frame (h0 ∷ (length_bytes mask len ++ input))
      ≡ read_payload (h0 / 128 % 2 == 1) (h0 % 16) mask len input
unfolding read_frame length_bytes
read_frame_length h0 mask len input h = elim (Bool-cases (ltb len 126)) [
  | inl e ↦ rw e (
      read_head_length h0 mask len input len input (ground arith) h
        (extended_length_small len input (ground arith)))
  | inr e ↦ elim (Bool-cases (leb len 0xFFFF)) [
    | inl f ↦
        rw (e, f)
          (read_head_length h0 mask 126 ((len / 2 ^ 8 % 256) ∷ (len % 256) ∷ input) len input
            (omega arith) h (extended_length_16 len input (ground arith)))
    | inr f ↦
        rw (e, f)
          (read_head_length h0 mask 127 (eight_bytes len input) len input (omega arith) h
            (extended_length_64 len input (omega arith)))
  ]
]

first_byte :
    (fin : Bool) (opcode : ℕ)
    → opcode < 16
    → ((if fin then 0x80 else 0) + opcode % 16) % 16 ≡ opcode
first_byte true opcode h = omega arith
first_byte false opcode h = omega arith

first_bit :
    (fin : Bool) (opcode : ℕ) → (((if fin then 0x80 else 0) + opcode % 16) / 128 % 2 == 1) ≡ fin
first_bit true opcode = ground arith
first_bit false opcode = ground arith

-- A frame of either side with a payload of at most 64 MiB of bytes, an opcode below 16 and any key
-- of four bytes is read back with its FIN bit, its opcode and its payload, whatever follows it.
pub read_frame-frame_bytes :
    (server_side : Bool) (opcode : ℕ) (payload : Bytes) (fin : Bool) (key rest : Bytes)
    → opcode < 16
    → length payload ≤ max_payload
    → All IsByte payload
    → length key ≡ 4
    → All IsByte key
    → read_frame (frame_bytes server_side opcode payload fin key ++ rest)
      ≡ frame fin opcode payload rest
unfolding frame_bytes
read_frame-frame_bytes true opcode payload fin key rest ho hl hp lk hk =
    rw
      (
        append_assoc (length_bytes false (length payload)) payload rest,
        read_frame_length _ false (length payload) (payload ++ rest) hl,
        first_byte fin opcode ho,
        first_bit fin opcode,
      )
      (read_payload_plain fin opcode payload rest)
read_frame-frame_bytes false opcode payload fin key rest ho hl hp lk hk =
    rw
      (
        append_assoc (length_bytes true (length payload)) (key ++ apply_mask key 0 payload) rest,
        append_assoc key (apply_mask key 0 payload) rest,
        read_frame_length _ true (length payload) (key ++ (apply_mask key 0 payload ++ rest)) hl,
        first_byte fin opcode ho,
        first_bit fin opcode,
      )
      (read_payload_masked fin opcode key payload rest lk hk hp)
