-- ===== src/Crc32.antt =====
-- `zlib.crc32`, which the agent's packets and the flash commands are checked with: the reflected
-- CRC-32 of the standard library, bit by bit.
use openipc_defib.Prelude.{
  ℕ, zero, suc, ◌/◌, ◌%◌, ◌^◌, ◌<◌, ◌≡◌, refl, List, [], ◌∷◌, All, arith, bit_xor, ◌==◌,
  if◌then◌else◌,
}
use openipc_defib.Prelude.Bits.{xor-lt, IsByte}

abbrev reflected_polynomial : ℕ
reflected_polynomial = 0xedb88320

crc32_bit : ℕ → ℕ
crc32_bit c = if c % 2 == 1 then bit_xor (c / 2) reflected_polynomial else c / 2

crc32_bits : ℕ → ℕ → ℕ
crc32_bits zero c = c
crc32_bits (suc n) c = crc32_bits n (crc32_bit c)

crc32_from : ℕ → List ℕ → ℕ
crc32_from c [] = c
crc32_from c (b ∷ bs) = crc32_from (crc32_bits 8 (bit_xor c b)) bs

unfoldable pub crc32 : List ℕ → ℕ
unfolding crc32_bit crc32_bits crc32_from
crc32 bytes = bit_xor (crc32_from 0xffff_ffff bytes) 0xffff_ffff

crc32_bit-lt : (c : ℕ) → c < 2 ^ 32 → crc32_bit c < 2 ^ 32
unfolding crc32_bit
crc32_bit-lt c h =
    ground (arith, xor-lt 32 (c / 2) reflected_polynomial (omega arith) (omega arith))

crc32_bits-lt : (n c : ℕ) → c < 2 ^ 32 → crc32_bits n c < 2 ^ 32
unfolding crc32_bits
crc32_bits-lt zero c h = h
crc32_bits-lt (suc n) c h = crc32_bits-lt n (crc32_bit c) (crc32_bit-lt c h)

crc32_from-lt :
    (c : ℕ) (bytes : List ℕ) → c < 2 ^ 32 → All IsByte bytes → crc32_from c bytes < 2 ^ 32
unfolding crc32_from
crc32_from-lt c [] hc hb = hc
crc32_from-lt c (b ∷ bs) hc hb =
    crc32_from-lt (crc32_bits 8 (bit_xor c b)) bs
      (crc32_bits-lt 8 (bit_xor c b) (xor-lt 32 c b hc (omega (arith, hb.0)))) hb.1

pub crc32-lt : (bytes : List ℕ) → All IsByte bytes → crc32 bytes < 2 ^ 32
unfolding crc32
crc32-lt bytes h =
    xor-lt 32 (crc32_from 0xffff_ffff bytes) 0xffff_ffff
      (crc32_from-lt 0xffff_ffff bytes (omega arith) h) (omega arith)

-- The check value of the CRC-32 of "123456789".
crc32_check_value :
    crc32 (b'1' ∷ b'2' ∷ b'3' ∷ b'4' ∷ b'5' ∷ b'6' ∷ b'7' ∷ b'8' ∷ b'9' ∷ []) ≡ 0xcbf4_3926
unfolding crc32
crc32_check_value = refl
