-- ===== src/Sha1/Examples.antt =====
-- The test vector of RFC 3174 for "abc".
use github_codespaces_proxy.Base.{◌≡◌, refl, [], ◌∷◌, Bytes, codes}
use github_codespaces_proxy.Sha1.{sha1_hash}

abbrev abc_digest : Bytes
abc_digest =
    0xa9 ∷ 0x99 ∷ 0x3e ∷ 0x36 ∷ 0x47 ∷ 0x06 ∷ 0x81 ∷ 0x6a ∷ 0xba ∷ 0x3e ∷ 0x25 ∷ 0x71 ∷ 0x78 ∷ 0x50
    ∷ 0xc2 ∷ 0x6c ∷ 0x9c ∷ 0xd0 ∷ 0xd8 ∷ 0x9d ∷ []

abc_test : sha1_hash (codes "abc") ≡ abc_digest
unfolding sha1_hash
abc_test = refl
