-- ===== src/Protocol/Frame.antt =====
-- Data frames of src/common/protocol.cpp and the byte order helpers of src/common/util.hpp.
-- A uint32_t is a number below 2 ^ 32; fields that share no bit are joined by `+` for `|`.
use github_codespaces_proxy.Base.{
  ℕ, ◌+◌, ◌*◌, ◌/◌, ◌%◌, ◌^◌, ◌<◌, ◌≡◌, refl, Bool, ◌&&◌, Option, none, some, [], ◌∷◌, ◌++◌, arith,
  ltb, leb, if◌then◌else◌, Bytes, IsByte, length, drop, All, ◌⊎◌, inl, inr,
}

abbrev pub data_header_len : ℕ
data_header_len = 4

abbrev pub session_id_min : ℕ
session_id_min = 1

abbrev pub session_id_max : ℕ
session_id_max = 0xffffffff

unfoldable pub put_u32_be : ℕ → Bytes
put_u32_be v = (v / 2 ^ 24 % 256) ∷ (v / 2 ^ 16 % 256) ∷ (v / 2 ^ 8 % 256) ∷ (v % 256) ∷ []

-- The four bytes at the front; the callers have checked that they are there.
unfoldable pub get_u32_be : Bytes → ℕ
get_u32_be (a ∷ b ∷ c ∷ d ∷ rest) = a * 2 ^ 24 + b * 2 ^ 16 + c * 2 ^ 8 + d
get_u32_be _ = 0

unfoldable pub encode_data_frame : ℕ → Bytes → Bytes
unfolding put_u32_be
encode_data_frame session_id payload = put_u32_be session_id ++ payload

pub record DataFrame : Type 0 where
  pub session_id : ℕ
  pub payload : Bytes

unfoldable pub decode_data_frame : Bytes → Option DataFrame
unfolding get_u32_be
decode_data_frame buf =
    if ltb (length buf) data_header_len
    then none
    else some (record { session_id = get_u32_be buf; payload = drop data_header_len buf })

unfoldable pub is_valid_session_id : ℕ → Bool
is_valid_session_id v = leb session_id_min v && leb v session_id_max

-- Decoding an encoded data frame gives back the session id and the payload, for every 32-bit id
-- and every payload.
pub decode_data_frame-encode_data_frame :
    (session_id : ℕ) (payload : Bytes)
    → session_id < 2 ^ 32
    → decode_data_frame (encode_data_frame session_id payload)
      ≡ some (record { session_id = session_id; payload = payload })
unfolding decode_data_frame encode_data_frame
decode_data_frame-encode_data_frame session_id payload h = ground arith

-- A buffer of bytes with fewer than four decodes to no frame; any other one decodes to a frame
-- with a 32-bit id that encodes to the buffer again.
pub encode_data_frame-decode_data_frame :
    (buf : Bytes)
    → All IsByte buf
    → ((length buf < 4) × (decode_data_frame buf ≡ none))
      ⊎ ((f : DataFrame) × (decode_data_frame buf ≡ some f)
          × (f.session_id < 2 ^ 32)
          × (encode_data_frame f.session_id f.payload ≡ buf))
unfolding decode_data_frame encode_data_frame
encode_data_frame-decode_data_frame [] h = inl (omega arith, refl)
encode_data_frame-decode_data_frame (a ∷ []) h = inl (omega arith, refl)
encode_data_frame-decode_data_frame (a ∷ b ∷ []) h = inl (omega arith, refl)
encode_data_frame-decode_data_frame (a ∷ b ∷ c ∷ []) h = inl (omega arith, refl)
encode_data_frame-decode_data_frame (a ∷ b ∷ c ∷ d ∷ rest) h =
    let id : ℕ = a * 2 ^ 24 + b * 2 ^ 16 + c * 2 ^ 8 + d in
    inr (record { session_id = id; payload = rest }, ground arith, omega arith, ground arith)
