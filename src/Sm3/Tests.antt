-- ===== src/Sm3/Tests.antt =====
-- The digest of "abc", of the standard GB/T 32905, in one write and in two.
use sea_pkg.Base.{ℕ, ◌≡◌, refl, List, [], ◌∷◌, concat}
use sea_pkg.Base.Outcome.{Outcome, ok, ◌>>=◌}
use sea_pkg.Sm3.{
  Sm3, PadFault, compress, update, write, reset, pad, pad_zeros, sum, sm3_sum, length_bytes,
  digest_bytes,
}
use sea_pkg.Sm3.Chunks.{write_all}
use sea_pkg.Sm3.Padding.{hash, sum-hash, sum-argument}

abbrev abc_digest : List ℕ
abc_digest =
    0x66 ∷ 0xc7 ∷ 0xf0 ∷ 0xf4 ∷ 0x62 ∷ 0xee ∷ 0xed ∷ 0xd9 ∷ 0xd1 ∷ 0xf2 ∷ 0xd4 ∷ 0x6b ∷ 0xdc ∷ 0x10
    ∷ 0xe4 ∷ 0xe2 ∷ 0x41 ∷ 0x67 ∷ 0xc4 ∷ 0x87 ∷ 0x5c ∷ 0xf2 ∷ 0xf7 ∷ 0xa2 ∷ 0x29 ∷ 0x7d ∷ 0xa0
    ∷ 0x2b ∷ 0x8f ∷ 0x4b ∷ 0xa8 ∷ 0xe0 ∷ []

abbrev digest_of : Outcome PadFault (List ℕ × Sm3) → Outcome PadFault (List ℕ)
digest_of o = o >>= λ p. ok p.0

sm3_sum_abc : digest_of (sm3_sum (0x61 ∷ 0x62 ∷ 0x63 ∷ [])) ≡ ok abc_digest
unfolding sm3_sum sum write reset update pad pad_zeros compress length_bytes digest_bytes
sm3_sum_abc = refl

abbrev chunks : List (List ℕ)
chunks = (0x61 ∷ []) ∷ (0x62 ∷ 0x63 ∷ []) ∷ []

sum-hash_example : (s : Sm3) × (sum (write_all reset chunks) [] ≡ ok (hash (concat chunks), s))
sum-hash_example = sum-hash chunks

sum-argument_example : sum reset (0x61 ∷ []) ≡ sum (write reset (0x61 ∷ [])) []
sum-argument_example = sum-argument reset (0x61 ∷ [])
