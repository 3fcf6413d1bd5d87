-- ===== src/Sha1.antt =====
-- `Sha1` of src/common/sha1.hpp and src/common/sha1.cpp. A uint32_t is a number below 2 ^ 32. The
-- part of `buf_` that counts is `buf`; the bytes behind it are written before they are read.
mod Examples
use Prim.Native.Nat.{bit_or}
use github_codespaces_proxy.Base.{
  ℕ, zero, suc, ◌+◌, ◌*◌, ◌-◌, ◌/◌, ◌%◌, ◌^◌, Bool, true, false, List, [], ◌∷◌, ◌++◌, ltb, ◌==◌,
  if◌then◌else◌, Bytes, length, take, drop, get_or, replicate, min, bit_and, bit_xor,
}

pub record Hash : Type 0 where
  pub a : ℕ
  pub b : ℕ
  pub c : ℕ
  pub d : ℕ
  pub e : ℕ

pub record Sha1 : Type 0 where
  pub h : Hash
  pub total_len : ℕ
  pub buf : Bytes

unfoldable pub reset : Sha1
reset = record {
  h = record { a = 0x67452301; b = 0xEFCDAB89; c = 0x98BADCFE; d = 0x10325476; e = 0xC3D2E1F0 };
  total_len = 0;
  buf = [];
}

unfoldable pub rol : ℕ → ℕ → ℕ
rol v n = bit_or (v * 2 ^ n % 2 ^ 32) (v / 2 ^ (32 - n))

-- The first sixteen words of a block.
unfoldable pub block_words : ℕ → Bytes → List ℕ
block_words zero block = []
block_words (suc n) block =
    (get_or block 0 0 * 2 ^ 24
      + get_or block 1 0 * 2 ^ 16
      + get_or block 2 0 * 2 ^ 8
      + get_or block 3 0)
    ∷ block_words n (drop 4 block)

-- The words from 16 on, each from those before it.
unfoldable pub extend_words : ℕ → ℕ → List ℕ → List ℕ
unfolding rol
extend_words zero i w = w
extend_words (suc n) i w = extend_words n (i + 1) (
    w
    ++ rol
        (bit_xor (bit_xor (bit_xor (get_or w (i - 3) 0) (get_or w (i - 8) 0)) (get_or w (i - 14) 0))
          (get_or w (i - 16) 0))
        1
      ∷ [])

unfoldable pub choice : Hash → ℕ
choice s = bit_or (bit_and s.b s.c) (bit_and (2 ^ 32 - 1 - s.b) s.d)

unfoldable pub parity : Hash → ℕ
parity s = bit_xor (bit_xor s.b s.c) s.d

unfoldable pub majority : Hash → ℕ
majority s = bit_or (bit_or (bit_and s.b s.c) (bit_and s.b s.d)) (bit_and s.c s.d)

-- `f` and `k` of a round.
unfoldable pub round_words : ℕ → Hash → ℕ × ℕ
unfolding choice parity majority
round_words i s =
    if ltb i 20
    then (choice s, 0x5A827999)
    else if ltb i 40
    then (parity s, 0x6ED9EBA1)
    else if ltb i 60
    then (majority s, 0x8F1BBCDC)
    else (parity s, 0xCA62C1D6)

unfoldable pub sha_round : ℕ → ℕ → Hash → Hash
unfolding rol round_words
sha_round i w s =
    let fk = round_words i s in
    record {
      a = (rol s.a 5 + fk.0 + s.e + fk.1 + w) % 2 ^ 32;
      b = s.a;
      c = rol s.b 30;
      d = s.c;
      e = s.d;
    }

unfoldable pub sha_rounds : ℕ → List ℕ → Hash → Hash
unfolding sha_round
sha_rounds i [] s = s
sha_rounds i (w ∷ ws) s = sha_rounds (i + 1) ws (sha_round i w s)

unfoldable pub process_block : Hash → Bytes → Hash
unfolding block_words extend_words sha_rounds
process_block h block =
    let s = sha_rounds 0 (extend_words 64 16 (block_words 16 block)) h in
    record {
      a = (h.a + s.a) % 2 ^ 32;
      b = (h.b + s.b) % 2 ^ 32;
      c = (h.c + s.c) % 2 ^ 32;
      d = (h.d + s.d) % 2 ^ 32;
      e = (h.e + s.e) % 2 ^ 32;
    }

-- A full buffer is processed.
unfoldable pub flush : Sha1 → Sha1
unfolding process_block
flush s = if length s.buf == 64 then record s { h = process_block s.h s.buf; buf = [] } else s

-- The loop of `update`; each round takes a byte at least, since the buffer is not full.
unfoldable pub update_loop : ℕ → Sha1 → Bytes → Sha1
unfolding flush
update_loop zero s rest = s
update_loop (suc fuel) s [] = s
update_loop (suc fuel) s (x ∷ xs) =
    let rest : Bytes = x ∷ xs in
    let count = min (length rest) (64 - length s.buf) in
    update_loop fuel (flush (record s { buf = s.buf ++ take count rest })) (drop count rest)

-- `totalLen_` is a uint64_t.
unfoldable pub update : Sha1 → Bytes → Sha1
unfolding update_loop
update s data_ =
    update_loop (length data_) (record s { total_len = (s.total_len + length data_) % 2 ^ 64 })
      data_

-- Zeros until 56 bytes are in the buffer; 64 rounds reach that from any length.
unfoldable pub pad_zeros : ℕ → Sha1 → Sha1
unfolding update
pad_zeros zero s = s
pad_zeros (suc fuel) s = if length s.buf == 56 then s else pad_zeros fuel (update s (0 ∷ []))

abbrev pub word_bytes : ℕ → Bytes
word_bytes v = (v / 2 ^ 24 % 256) ∷ (v / 2 ^ 16 % 256) ∷ (v / 2 ^ 8 % 256) ∷ (v % 256) ∷ []

unfoldable pub final : Sha1 → Bytes
unfolding update pad_zeros
final s =
    let bit_len = s.total_len * 8 % 2 ^ 64 in
    let padded = pad_zeros 64 (update s (0x80 ∷ [])) in
    let out = (update padded (word_bytes (bit_len / 2 ^ 32) ++ word_bytes bit_len)).h in
    word_bytes out.a
    ++ (word_bytes out.b ++ (word_bytes out.c ++ (word_bytes out.d ++ word_bytes out.e)))

unfoldable pub sha1_hash : Bytes → Bytes
unfolding reset update final
sha1_hash data_ = final (update reset data_)
