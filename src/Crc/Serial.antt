-- ===== src/Crc/Serial.antt =====
-- The CRC as its textbook definition: a shift register that takes one bit at a time and subtracts
-- the polynomial x^16 + x^12 + x^5 + 1. The table-driven code computes the same.
use openipc_defib.Prelude.{
  ℕ, zero, suc, ◌+◌, ◌*◌, ◌/◌, ◌%◌, ◌^◌, ◌≤◌, ◌<◌, ◌≡◌, refl, sym, ap, ◌∙◌, arith,
}
use openipc_defib.Prelude.{
  List, [], ◌∷◌, ◌++◌, true, ltb, ◌==◌, ==_iff, if◌then◌else◌, Bool-cases, inl, inr, ◌-◌, bit_xor,
  All, All-append,
}
use openipc_defib.Prelude.Bits.{
  xor_self, u16, xor_low, xor-lt, xor_fields, xor_assoc, xor_comm, zero-xor, IsByte,
}
use openipc_defib.Crc.{table_at, calc_crc_from}
use openipc_defib.Crc.Facts.{holds_below, holds_below→, step16, crc16, calc_crc-crc16}
use native.Mathlib.Nat.{pow-suc}

abbrev pub polynomial : ℕ
polynomial = 0x11021

-- Shift one message bit in.
unfoldable pub shift_bit : ℕ → ℕ → ℕ
shift_bit reg bit =
    if ltb (reg * 2 + bit) 65536 then reg * 2 + bit else bit_xor (reg * 2 + bit) polynomial

-- The low `k` bits of `byte`, highest first.
unfoldable pub shift_bits : ℕ → ℕ → ℕ → ℕ
shift_bits zero reg byte = reg
shift_bits (suc k) reg byte = shift_bit (shift_bits k reg (byte / 2)) (byte % 2)

pub serial_crc : ℕ → List ℕ → ℕ
serial_crc reg [] = reg
serial_crc reg (byte ∷ bytes) = serial_crc (shift_bits 8 reg byte) bytes

swap_last : (x y z : ℕ) → bit_xor (bit_xor x y) z ≡ bit_xor (bit_xor x z) y
swap_last x y z =
    xor_assoc x y z ∙ ap (λ (t : ℕ). bit_xor x t) (xor_comm y z) ∙ sym (xor_assoc x z y)

-- The register is linear in what stands below its top bit.
shift_bit-xor :
    (a b bit : ℕ)
    → b < 32768
    → bit < 2
    → shift_bit (bit_xor a b) bit ≡ bit_xor (shift_bit a 0) (b * 2 + bit)
unfolding shift_bit
shift_bit-xor a b bit hb hbit =
    let whole : a / 2 ^ 15 * 2 ^ 15 + a % 2 ^ 15 ≡ a = omega arith in
    let low = xor-lt 15 (a % 2 ^ 15) b (omega arith) hb in
    let top : bit_xor a b ≡ a / 2 ^ 15 * 2 ^ 15 + bit_xor (a % 2 ^ 15) b =
      rw whole at (xor_low 15 (a / 2 ^ 15) (a % 2 ^ 15) b (omega arith) hb) in
    let double : bit_xor (a * 2 + 0) (b * 2 + bit) ≡ bit_xor a b * 2 + bit =
      rw zero-xor at (xor_fields 1 a b 0 bit (omega arith) hbit).0 in
    ground (arith, swap_last (a * 2 + 0) (b * 2 + bit) polynomial)

pub shift_bit-lt : (reg bit : ℕ) → reg < 65536 → bit < 2 → shift_bit reg bit < 65536
unfolding shift_bit
shift_bit-lt reg bit hr hb = elim (Bool-cases (ltb (reg * 2 + bit) 65536)) [
  | inl fits ↦ rw fits (ground arith)
  | inr over ↦ rw over (
      let rest : ℕ = reg * 2 + bit - 65536 in
      let split : 1 * 2 ^ 16 + rest ≡ reg * 2 + bit = ground arith in
      let sum = (xor_fields 16 1 1 rest 0x1021 (ground arith) (omega arith)) in
      rw (← split) (omega (arith, sum.0, sum.1, xor_self 1)))
]

pub shift_bits-lt : (k reg byte : ℕ) → reg < 65536 → shift_bits k reg byte < 65536
unfolding shift_bits
shift_bits-lt zero reg byte h = h
shift_bits-lt (suc k) reg byte h =
    shift_bit-lt (shift_bits k reg (byte / 2)) (byte % 2) (shift_bits-lt k reg (byte / 2) h)
      (omega arith)

-- What stands low enough in the register is only shifted along.
shift_bits-xor :
    (k c d b : ℕ)
    → (d + 1) * 2 ^ k ≤ 65536
    → b < 2 ^ k
    → shift_bits k (bit_xor c d) b ≡ bit_xor (shift_bits k c 0) (d * 2 ^ k + b)
unfolding shift_bits
shift_bits-xor zero c d b room small =
    ap (λ (t : ℕ). bit_xor c t) {x = d} {y = d * 1 + b} (omega arith)
shift_bits-xor (suc k) c d b room small =
    let twice = pow-suc 2 k in
    let room' : (d + 1) * 2 ^ k ≤ 32768 = omega (arith, ap (λ (t : ℕ). d * t) twice) in
    ap (λ (t : ℕ). shift_bit t (b % 2)) (shift_bits-xor k c d (b / 2) (omega arith) (omega arith))
    ∙ shift_bit-xor (shift_bits k c 0) (d * 2 ^ k + b / 2) (b % 2) (omega arith) (omega arith)
    ∙ ap (λ (t : ℕ). bit_xor (shift_bits (suc k) c 0) t)
        (omega (arith, ap (λ (t : ℕ). d * t) twice))

table_serial : holds_below 256 (λ h. shift_bits 8 (h * 256) 0 == table_at h) ≡ true
unfolding holds_below table_at shift_bits shift_bit
table_serial = refl

-- A table round is eight rounds of the register.
pub step16-serial : (c b : ℕ) → c < 65536 → IsByte b → step16 c b ≡ shift_bits 8 c b
unfolding step16
step16-serial c b hc hb =
    let entry : shift_bits 8 (c / 256 * 2 ^ 8) 0 ≡ table_at (c / 256) =
      (==_iff _ (table_at (c / 256))).0 (holds_below→ 256 _ table_serial (c / 256) (omega arith)) in
    let join : bit_xor (c / 256 * 2 ^ 8) (c % 256) ≡ c = or_zero ∙ rw zero-xor (omega arith) in
    sym (
      ap (λ (t : ℕ). shift_bits 8 t b) (sym join)
      ∙ shift_bits-xor 8 (c / 256 * 2 ^ 8) (c % 256) b (omega arith) hb
      ∙ ap (λ (t : ℕ). bit_xor t (c % 256 * 256 + b)) entry
      ∙ xor_comm (table_at (c / 256)) (c % 256 * 256 + b))
  where
    or_zero : bit_xor (c / 256 * 2 ^ 8) (c % 256) ≡ c / 256 * 2 ^ 8 + bit_xor 0 (c % 256)
    or_zero =
        let plain : c / 256 * 2 ^ 8 + 0 ≡ c / 256 * 2 ^ 8 = omega arith in
        rw plain at (xor_low 8 (c / 256) 0 (c % 256) (omega arith) (omega arith))

crc16-serial :
    (c : ℕ) (bytes : List ℕ) → c < 65536 → All IsByte bytes → crc16 c bytes ≡ serial_crc c bytes
unfolding crc16 serial_crc
crc16-serial c [] hc hb = refl
crc16-serial c (b ∷ bs) hc hb =
    ap (λ (t : ℕ). crc16 t bs) (step16-serial c b hc hb.0)
    ∙ crc16-serial (shift_bits 8 c b) bs (shift_bits-lt 8 c b hc) hb.1

-- From any register of sixteen bits, `calc_crc` is the bit-serial remainder of the message followed
-- by two zero bytes.
pub calc_crc-serial :
    (crc : ℕ) (bytes : List ℕ)
    → crc < 65536
    → All IsByte bytes
    → calc_crc_from crc bytes ≡ serial_crc crc (bytes ++ 0 ∷ 0 ∷ [])
calc_crc-serial crc bytes hc hb =
    let low : u16 crc ≡ crc = omega arith in
    calc_crc-crc16 crc bytes hb
    ∙ ap (λ (t : ℕ). crc16 t (bytes ++ 0 ∷ 0 ∷ [])) low
    ∙ crc16-serial crc (bytes ++ 0 ∷ 0 ∷ []) hc
        (All-append IsByte bytes (0 ∷ 0 ∷ []) hb (omega arith))
