-- ===== src/Proto/Crc.antt =====
-- `crc32` of code/devcore/protocol/src/proto.c.
use Prim.Native.Nat.{bit_and, bit_xor}
use soter.Base.{
  ℕ, zero, suc, ◌/◌, ◌%◌, ◌<◌, ◌≡◌, refl, List, [], ◌∷◌, arith, u32_mod, u32_max, sub32,
}

-- One round of the inner loop: a shift, and the polynomial if the bit that falls out is set.
crc_bit : ℕ → ℕ
crc_bit crc = bit_xor (crc / 2) (bit_and 0xEDB88320 (sub32 0 (bit_and crc 1)))

crc_rounds : ℕ → ℕ → ℕ
unfolding crc_bit
crc_rounds zero crc = crc
crc_rounds (suc j) crc = crc_rounds j (crc_bit crc)

-- The outer loop over the bytes that are left.
crc_from : ℕ → List ℕ → ℕ
unfolding crc_rounds
crc_from crc [] = crc
crc_from crc (b ∷ bs) = crc_from (crc_rounds 8 (bit_xor crc b)) bs

-- The result is a `uint32_t`.
pub crc32 : List ℕ → ℕ
unfolding crc_from
crc32 bytes = bit_xor (crc_from u32_max bytes) u32_max % u32_mod

pub crc32-lt : (bytes : List ℕ) → crc32 bytes < u32_mod
unfolding crc32
crc32-lt bytes = omega arith

-- The check value of CRC-32: that of the digits 1 to 9.
check_value : crc32 (0x31 ∷ 0x32 ∷ 0x33 ∷ 0x34 ∷ 0x35 ∷ 0x36 ∷ 0x37 ∷ 0x38 ∷ 0x39 ∷ []) ≡ 0xCBF43926
unfolding crc32
check_value = refl
