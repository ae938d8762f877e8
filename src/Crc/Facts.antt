-- ===== src/Crc/Facts.antt =====
-- The table and the round of `calc_crc` as arithmetic on sixteen bits.
use openipc_defib.Prelude.{
  ℕ, zero, suc, ◌+◌, ◌*◌, ◌/◌, ◌%◌, ◌^◌, ◌<◌, ◌≡◌, refl, sym, ap, ◌∙◌, arith,
}
use openipc_defib.Prelude.{List, [], ◌∷◌, Bool, true, ◌&&◌, ltb, length, bit_or, bit_xor, All, ◌++◌}
use openipc_defib.Prelude.Bits.{u16, xor_low, xor-lt, or_fields, IsByte}
use openipc_defib.Crc.{crc_table, table_at, crc_byte, crc_bytes, calc_crc_from}

-- A test over the first `n` numbers, for facts about bytes.
unfoldable pub holds_below : ℕ → (ℕ → Bool) → Bool
holds_below zero p = true
holds_below (suc n) p = p n && holds_below n p

pub holds_below→ : (n : ℕ) (p : ℕ → Bool) → holds_below n p ≡ true → (i : ℕ) → i < n → p i ≡ true
unfolding holds_below
holds_below→ zero p all i h = absurd (omega arith)
holds_below→ (suc n) p all i h = ground (arith, holds_below→ n p (ground arith) i)

length-crc_table : length crc_table ≡ 256
unfolding crc_table
length-crc_table = refl

table_below : holds_below 256 (λ i. ltb (table_at i) 65536) ≡ true
unfolding holds_below table_at
table_below = refl

pub table_at-lt : (i : ℕ) → i < 256 → table_at i < 65536
table_at-lt i h =
    let t : ltb (table_at i) 65536 ≡ true = holds_below→ 256 _ table_below i h in ground arith

-- The round on a register that is kept to sixteen bits.
unfoldable pub step16 : ℕ → ℕ → ℕ
step16 c b = bit_xor (c % 256 * 256 + b) (table_at (c / 256))

pub step16-lt : (c b : ℕ) → c < 65536 → IsByte b → step16 c b < 65536
unfolding step16
step16-lt c b hc hb =
    xor-lt 16 (c % 256 * 256 + b) (table_at (c / 256)) (omega arith)
      (table_at-lt (c / 256) (omega arith))

-- Masking at the end is as good as masking in each round.
pub crc_byte-step16 : (c b : ℕ) → IsByte b → u16 (crc_byte c b) ≡ step16 (u16 c) b
unfolding crc_byte step16
crc_byte-step16 c b hb =
    let t = table_at (c / 256 % 256) in
    let low = c % 256 * 256 + b in
    let split : bit_or (c * 256) b ≡ c / 256 * 2 ^ 16 + low = omega (arith, or_fields 8 c b hb) in
    let small : low < 2 ^ 16 = omega arith in
    let t_small = table_at-lt (c / 256 % 256) (omega arith) in
    let fields = xor_low 16 (c / 256) low t small t_small in
    let fits = xor-lt 16 low t small t_small in
    let mod_low : c % 65536 % 256 ≡ c % 256 = omega arith in
    let index : c % 65536 / 256 ≡ c / 256 % 256 = omega arith in
    rw (mod_low, index, split) (omega (arith, fields, fits))

-- The register of a message, kept to sixteen bits.
unfoldable pub crc16 : ℕ → List ℕ → ℕ
crc16 c [] = c
crc16 c (b ∷ bs) = crc16 (step16 c b) bs

pub crc16-lt : (c : ℕ) (bytes : List ℕ) → c < 65536 → All IsByte bytes → crc16 c bytes < 65536
unfolding crc16
crc16-lt c [] hc hb = hc
crc16-lt c (b ∷ bs) hc hb = crc16-lt (step16 c b) bs (step16-lt c b hc hb.0) hb.1

pub crc16-append : (c : ℕ) (xs ys : List ℕ) → crc16 c (xs ++ ys) ≡ crc16 (crc16 c xs) ys
unfolding crc16
crc16-append c [] ys = refl
crc16-append c (x ∷ xs) ys = crc16-append (step16 c x) xs ys

crc_bytes-crc16 :
    (c : ℕ) (bytes : List ℕ) → All IsByte bytes → u16 (crc_bytes c bytes) ≡ crc16 (u16 c) bytes
unfolding crc_bytes crc16
crc_bytes-crc16 c [] h = refl
crc_bytes-crc16 c (b ∷ bs) h =
    crc_bytes-crc16 (crc_byte c b) bs h.1 ∙ ap (λ (t : ℕ). crc16 t bs) (crc_byte-step16 c b h.0)

-- `calc_crc` is the sixteen-bit register after the message and two zero bytes.
pub calc_crc-crc16 :
    (c : ℕ) (bytes : List ℕ)
    → All IsByte bytes
    → calc_crc_from c bytes ≡ crc16 (u16 c) (bytes ++ 0 ∷ 0 ∷ [])
unfolding calc_crc_from
calc_crc-crc16 c bytes h =
    crc_byte-step16 (crc_byte (crc_bytes c bytes) 0) 0 (omega arith)
    ∙ ap (λ (t : ℕ). step16 t 0) (crc_byte-step16 (crc_bytes c bytes) 0 (omega arith))
    ∙ ap (λ (t : ℕ). step16 (step16 t 0) 0) (crc_bytes-crc16 c bytes h)
    ∙ sym (unfold crc16 in crc16-append (u16 c) bytes (0 ∷ 0 ∷ []))

pub calc_crc-lt : (c : ℕ) (bytes : List ℕ) → calc_crc_from c bytes < 65536
unfolding calc_crc_from
calc_crc-lt c bytes = omega arith
