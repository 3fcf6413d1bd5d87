-- ===== src/Ssrf/Blocks.antt =====
-- The block tables of src/common/ssrf.cpp, and the test whether an address lies in a block.
-- `kIpv4Blocks` and `kIpv6Blocks` share one record here: only the number of bytes differs.
use github_codespaces_proxy.Base.{
  ℕ, zero, suc, ◌*◌, ◌/◌, ◌%◌, ◌^◌, ◌-◌, Bool, true, ◌&&◌, Option, none, some, List, [], ◌∷◌, ltb,
  ◌==◌, if◌then◌else◌, Bytes, drop, codes, get_or, bit_and,
}

pub record Block : Type 0 where
  pub cidr : Bytes
  pub base : Bytes
  pub bits : ℕ

abbrev pub ipv4_blocks : List Block
ipv4_blocks =
    record { cidr = codes "0.0.0.0/8"; base = 0 ∷ 0 ∷ 0 ∷ 0 ∷ []; bits = 8 }
    ∷ record { cidr = codes "10.0.0.0/8"; base = 10 ∷ 0 ∷ 0 ∷ 0 ∷ []; bits = 8 }
    ∷ record { cidr = codes "100.64.0.0/10"; base = 100 ∷ 64 ∷ 0 ∷ 0 ∷ []; bits = 10 }
    ∷ record { cidr = codes "127.0.0.0/8"; base = 127 ∷ 0 ∷ 0 ∷ 0 ∷ []; bits = 8 }
    ∷ record { cidr = codes "169.254.0.0/16"; base = 169 ∷ 254 ∷ 0 ∷ 0 ∷ []; bits = 16 }
    ∷ record { cidr = codes "172.16.0.0/12"; base = 172 ∷ 16 ∷ 0 ∷ 0 ∷ []; bits = 12 }
    ∷ record { cidr = codes "192.168.0.0/16"; base = 192 ∷ 168 ∷ 0 ∷ 0 ∷ []; bits = 16 }
    ∷ record { cidr = codes "224.0.0.0/4"; base = 224 ∷ 0 ∷ 0 ∷ 0 ∷ []; bits = 4 }
    ∷ record { cidr = codes "240.0.0.0/4"; base = 240 ∷ 0 ∷ 0 ∷ 0 ∷ []; bits = 4 }
    ∷ []

-- Ten zero bytes in front of the given ones.
abbrev ten_zeros : Bytes → Bytes
ten_zeros t = 0 ∷ 0 ∷ 0 ∷ 0 ∷ 0 ∷ 0 ∷ 0 ∷ 0 ∷ 0 ∷ 0 ∷ t

abbrev six_zeros : Bytes
six_zeros = 0 ∷ 0 ∷ 0 ∷ 0 ∷ 0 ∷ 0 ∷ []

abbrev pub ipv6_blocks : List Block
ipv6_blocks =
    record { cidr = codes "::/128"; base = ten_zeros six_zeros; bits = 128 }
    ∷ record { cidr = codes "::1/128"; base = ten_zeros (0 ∷ 0 ∷ 0 ∷ 0 ∷ 0 ∷ 1 ∷ []); bits = 128 }
    ∷ record {
      cidr = codes "64:ff9b::/96";
      base = 0 ∷ 0x64 ∷ 0xff ∷ 0x9b ∷ 0 ∷ 0 ∷ 0 ∷ 0 ∷ 0 ∷ 0 ∷ six_zeros;
      bits = 96;
    }
    ∷ record {
      cidr = codes "2002::/16";
      base = 0x20 ∷ 0x02 ∷ 0 ∷ 0 ∷ 0 ∷ 0 ∷ 0 ∷ 0 ∷ 0 ∷ 0 ∷ six_zeros;
      bits = 16;
    }
    ∷ record {
      cidr = codes "fc00::/7";
      base = 0xfc ∷ 0 ∷ 0 ∷ 0 ∷ 0 ∷ 0 ∷ 0 ∷ 0 ∷ 0 ∷ 0 ∷ six_zeros;
      bits = 7;
    }
    ∷ record {
      cidr = codes "fe80::/10";
      base = 0xfe ∷ 0x80 ∷ 0 ∷ 0 ∷ 0 ∷ 0 ∷ 0 ∷ 0 ∷ 0 ∷ 0 ∷ six_zeros;
      bits = 10;
    }
    ∷ []

-- The loop over the whole bytes, and the masked test of the byte behind them.
unfoldable pub in_block_bytes : ℕ → ℕ → Bytes → Bytes → Bool
in_block_bytes zero rest_bits actual base =
    let mask = 0xff * 2 ^ (8 - rest_bits) % 256 in
    if ltb 0 rest_bits
    then bit_and (get_or actual 0 0) mask == bit_and (get_or base 0 0) mask
    else true
in_block_bytes (suc full) rest_bits actual base =
    get_or actual 0 0 == get_or base 0 0
    && in_block_bytes full rest_bits (drop 1 actual) (drop 1 base)

unfoldable pub in_block : Bytes → Bytes → ℕ → Bool
unfolding in_block_bytes
in_block actual base bits = in_block_bytes (bits / 8) (bits % 8) actual base

-- The first block of the table that holds the address.
unfoldable pub find_block : Bytes → List Block → Option Bytes
unfolding in_block
find_block actual [] = none
find_block actual (b ∷ bs) =
    if in_block actual b.base b.bits then some b.cidr else find_block actual bs
