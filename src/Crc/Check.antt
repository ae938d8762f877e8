-- ===== src/Crc/Check.antt =====
-- What the checksum guards: an intact frame verifies, and a burst of at most sixteen bits shows.
use openipc_defib.Prelude.{
  ℕ, zero, suc, ◌+◌, ◌-◌, ◌*◌, ◌/◌, ◌%◌, ◌^◌, ◌<◌, ◌≡◌, ◌≢◌, refl, sym, ◌∙◌, arith,
}
use openipc_defib.Prelude.{
  List, [], ◌∷◌, ◌++◌, true, false, ltb, ◌==◌, ==_iff, bit_xor, ◌↔◌, All, All-append,
}
use openipc_defib.Prelude.{
  Bool-cases, inl, inr, ◌⊎◌, length, length-append, append_assoc, get_or, take-append,
}
use openipc_defib.Prelude.Bits.{
  u8, u16, shr, xor_fields, xor_injective, or_fields, bit_xor_step, IsByte,
}
use openipc_defib.Crc.{table_at, calc_crc, calc_crc_from, crc_be, append_crc, verify_crc}
use openipc_defib.Crc.Facts.{
  step16, step16-lt, crc16, crc16-lt, crc16-append, calc_crc-crc16, calc_crc-lt,
}
use openipc_defib.Crc.Serial.{shift_bit, shift_bits, step16-serial, polynomial}

-- The polynomial is odd, so the lowest bit tells whether it was subtracted.
shift_bit_injective : (reg reg' bit : ℕ) → shift_bit reg bit ≡ shift_bit reg' bit → reg ≡ reg'
unfolding shift_bit
shift_bit_injective reg reg' bit h = ground (
  arith,
  bit_xor_step (reg * 2 + bit) polynomial,
  bit_xor_step (reg' * 2 + bit) polynomial,
  xor_injective (reg * 2 + bit) (reg' * 2 + bit) polynomial,
)

shift_bits_injective :
    (k reg reg' byte : ℕ) → shift_bits k reg byte ≡ shift_bits k reg' byte → reg ≡ reg'
unfolding shift_bits
shift_bits_injective zero reg reg' byte h = h
shift_bits_injective (suc k) reg reg' byte h =
    shift_bits_injective k reg reg' (byte / 2) (shift_bit_injective _ _ (byte % 2) h)

step16_injective :
    (c c' b : ℕ) → c < 65536 → c' < 65536 → IsByte b → step16 c b ≡ step16 c' b → c ≡ c'
step16_injective c c' b hc hc' hb h =
    shift_bits_injective 8 c c' b (sym (step16-serial c b hc hb) ∙ h ∙ step16-serial c' b hc' hb)

crc16_injective :
    (c c' : ℕ) (bytes : List ℕ)
    → c < 65536
    → c' < 65536
    → All IsByte bytes
    → crc16 c bytes ≡ crc16 c' bytes
    → c ≡ c'
unfolding crc16
crc16_injective c c' [] hc hc' hb h = h
crc16_injective c c' (b ∷ bs) hc hc' hb h = step16_injective c c' b hc hc' hb.0 (
    crc16_injective (step16 c b) (step16 c' b) bs (step16-lt c b hc hb.0) (step16-lt c' b hc' hb.0)
      hb.1 h)

-- The two bytes of a round's result.
step16_fields :
    (c b : ℕ)
    → c < 65536
    → IsByte b
    → (step16 c b / 256 ≡ bit_xor (c % 256) (table_at (c / 256) / 256))
      × (step16 c b % 256 ≡ bit_xor b (table_at (c / 256) % 256))
unfolding step16
step16_fields c b hc hb =
    let t = table_at (c / 256) in
    let fields = xor_fields 8 (c % 256) (t / 256) b (t % 256) hb (omega arith) in
    let whole : t / 256 * 2 ^ 8 + t % 256 ≡ t = omega arith in
    let both = rw whole at fields.0 in omega (arith, both, fields.1)

-- Two bytes in a row are told apart from any other two.
two_bytes :
    (c a b a' b' : ℕ)
    → c < 65536
    → All IsByte (a ∷ b ∷ a' ∷ b' ∷ [])
    → step16 (step16 c a) b ≡ step16 (step16 c a') b'
    → (a ≡ a') × (b ≡ b')
two_bytes c a b a' b' hc hb h =
    let f = step16_fields c a hc hb.0 in
    let f' = step16_fields c a' hc hb.1.1.0 in
    let g = step16_fields (step16 c a) b (step16-lt c a hc hb.0) hb.1.0 in
    let g' = step16_fields (step16 c a') b' (step16-lt c a' hc hb.1.1.0) hb.1.1.1.0 in
    let index : step16 c a / 256 ≡ step16 c a' / 256 = cc in
    let hi = table_at (step16 c a / 256) / 256 in
    let lo = table_at (step16 c a / 256) % 256 in
    let same_b : bit_xor b lo ≡ bit_xor b' lo = cc in
    let same_low : bit_xor (step16 c a % 256) hi ≡ bit_xor (step16 c a' % 256) hi = cc in
    let low : step16 c a % 256 ≡ step16 c a' % 256 = xor_injective _ _ hi same_low in
    let same_a : bit_xor a (table_at (c / 256) % 256) ≡ bit_xor a' (table_at (c / 256) % 256) =
      cc in
    (xor_injective a a' _ same_a, xor_injective b b' lo same_b)

-- Two messages that differ in two adjacent bytes have different registers.
crc16_burst :
    (c a b a' b' : ℕ) (front back : List ℕ)
    → c < 65536
    → All IsByte front
    → All IsByte (a ∷ b ∷ a' ∷ b' ∷ [])
    → All IsByte back
    → crc16 c (front ++ a ∷ b ∷ back) ≡ crc16 c (front ++ a' ∷ b' ∷ back)
    → (a ≡ a') × (b ≡ b')
unfolding crc16
crc16_burst c a b a' b' front back hc hf hb hk h =
    let r = crc16 c front in
    let hr = crc16-lt c front hc hf in
    two_bytes r a b a' b' hr hb (
      crc16_injective (step16 (step16 r a) b) (step16 (step16 r a') b') back
        (step16-lt _ b (step16-lt r a hr hb.0) hb.1.0)
        (step16-lt _ b' (step16-lt r a' hr hb.1.1.0) hb.1.1.1.0) hk
        (sym (crc16-append c front (a ∷ b ∷ back)) ∙ h ∙ crc16-append c front (a' ∷ b' ∷ back)))

-- `calc_crc` tells two messages apart that differ in one byte or in two adjacent bytes only.
pub calc_crc_burst :
    (crc a b a' b' : ℕ) (front back : List ℕ)
    → All IsByte front
    → All IsByte (a ∷ b ∷ a' ∷ b' ∷ [])
    → All IsByte back
    → calc_crc_from crc (front ++ a ∷ b ∷ back) ≡ calc_crc_from crc (front ++ a' ∷ b' ∷ back)
    → (a ≡ a') × (b ≡ b')
calc_crc_burst crc a b a' b' front back hf hb hk h =
    crc16_burst (u16 crc) a b a' b' front (back ++ 0 ∷ 0 ∷ []) (omega arith) hf hb
      (All-append IsByte back (0 ∷ 0 ∷ []) hk (omega arith))
      (rw (append_assoc, append_assoc) at
        (sym (calc_crc-crc16 crc (front ++ a ∷ b ∷ back) (whole a b hb.0 hb.1.0))
          ∙ h
          ∙ calc_crc-crc16 crc (front ++ a' ∷ b' ∷ back) (whole a' b' hb.1.1.0 hb.1.1.1.0)))
  where
    whole : (x y : ℕ) → IsByte x → IsByte y → All IsByte (front ++ x ∷ y ∷ back)
    whole x y hx hy = All-append IsByte front (x ∷ y ∷ back) hf (hx, (hy, hk))

-- Where the last two bytes of a frame stand.
get_or-append :
    (xs : List ℕ) (a b : ℕ)
    → (get_or (xs ++ a ∷ b ∷ []) (length xs) 0 ≡ a)
      × (get_or (xs ++ a ∷ b ∷ []) (length xs + 1) 0 ≡ b)
get_or-append [] a b = (refl, refl)
get_or-append (x ∷ xs) a b =
    let e : suc (length xs) + 1 ≡ suc (length xs + 1) = omega arith in rw e (get_or-append xs a b)

verify_crc_lem :
    (payload : List ℕ) (hi lo : ℕ)
    → 0 < length payload
    → IsByte lo
    → verify_crc (payload ++ hi ∷ lo ∷ []) ≡ (calc_crc payload == hi * 256 + lo)
unfolding verify_crc
verify_crc_lem payload hi lo some_payload hlo =
    let frame = payload ++ hi ∷ lo ∷ [] in
    let size : length frame ≡ length payload + 2 = length-append payload (hi ∷ lo ∷ []) in
    let long : ltb (length frame) 3 ≡ false = ground arith in
    let at_hi : length frame - 2 ≡ length payload = omega arith in
    let at_lo : length frame - 1 ≡ length payload + 1 = omega arith in
    let bytes = get_or-append payload hi lo in
    rw (long, at_hi, at_lo, bytes.0, bytes.1)
      (rw (take-append (length payload) payload (hi ∷ lo ∷ []) refl, or_fields 8 hi lo hlo))

-- A frame with a checksum of two bytes is accepted exactly when they are the payload's checksum.
pub verify_crc_iff :
    (payload : List ℕ) (hi lo : ℕ)
    → 0 < length payload
    → IsByte hi
    → IsByte lo
    → (verify_crc (payload ++ hi ∷ lo ∷ []) ≡ true) ↔ (calc_crc payload ≡ hi * 256 + lo)
verify_crc_iff payload hi lo some_payload hhi hlo =
    rw verify_crc_lem (==_iff (calc_crc payload) (hi * 256 + lo))

-- What `append_crc` returns is accepted, for any payload.
pub verify_crc-append_crc :
    (payload : List ℕ) → 0 < length payload → verify_crc (append_crc payload) ≡ true
unfolding append_crc
verify_crc-append_crc payload h =
    let crc = calc_crc payload in
    (verify_crc_iff payload (u8 (shr crc 8)) (u8 crc) h (omega arith) (omega arith)).1
      (omega (arith, calc_crc-lt 0 payload))

-- A frame in which one byte, or two adjacent bytes, of the payload were changed on the way is
-- refused.
pub verify_crc_burst :
    (a b a' b' : ℕ) (front back : List ℕ)
    → All IsByte front
    → All IsByte (a ∷ b ∷ a' ∷ b' ∷ [])
    → All IsByte back
    → (a ≢ a') ⊎ (b ≢ b')
    → verify_crc ((front ++ a' ∷ b' ∷ back) ++ crc_be (calc_crc (front ++ a ∷ b ∷ back))) ≡ false
verify_crc_burst a b a' b' front back hf hb hk changed = elim (Bool-cases (verify_crc frame)) [
  | inl good ↦ absurd (refuse good)
  | inr bad ↦ bad
]
  where
    crc : ℕ
    crc = calc_crc (front ++ a ∷ b ∷ back)

    frame : List ℕ
    frame = (front ++ a' ∷ b' ∷ back) ++ crc_be crc

    differs : (a ≡ a') × (b ≡ b') → ⊥
    differs same = elim changed [ inl na ↦ na same.0 | inr nb ↦ nb same.1 ]

    long : 0 < length (front ++ a' ∷ b' ∷ back)
    long = omega (arith, length-append front (a' ∷ b' ∷ back))

    refuse : verify_crc frame ≡ true → ⊥
    refuse good =
        let same =
          (verify_crc_iff (front ++ a' ∷ b' ∷ back) (u8 (shr crc 8)) (u8 crc) long (omega arith)
              (omega arith)).0
            good in
        differs (
          calc_crc_burst 0 a b a' b' front back hf hb hk
            (omega (arith, same, calc_crc-lt 0 (front ++ a ∷ b ∷ back))))
