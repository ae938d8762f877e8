-- ===== src/Rockusb/Codec.antt =====
-- src/defib/rockusb/codec.py: the boot ROM's CRC-16, and RC4.
pub mod Cipher
use openipc_defib.Prelude.{
  ℕ, zero, suc, ◌+◌, ◌%◌, ◌<◌, ◌≡◌, refl, ap, ap₂, arith, List, [], ◌∷◌, length, get_or, set,
  bit_xor, true, ◌==◌, not,
}
use openipc_defib.Prelude.Bits.{shl, shr, u8, u16, xor_cancel}
use openipc_defib.Prelude.Result.{Result, ok, guard, zero_division_error, ◌>>=◌, ◌>>◌}
use openipc_defib.Crc.{table_at}

abbrev pub rk_rc4_key : List ℕ
rk_rc4_key = 124 ∷ 78 ∷ 3 ∷ 4 ∷ 85 ∷ 5 ∷ 9 ∷ 7 ∷ 45 ∷ 44 ∷ 123 ∷ 56 ∷ 23 ∷ 13 ∷ 23 ∷ 17 ∷ []

abbrev pub crc16_init : ℕ
crc16_init = 0xffff

-- The rounds of `for byte in data`, and the mask at the end.
unfoldable pub rk_crc16_from : ℕ → List ℕ → ℕ
rk_crc16_from crc [] = u16 crc
rk_crc16_from crc (byte ∷ bytes) =
    rk_crc16_from (bit_xor (u16 (shl crc 8)) (table_at (u8 (bit_xor (shr crc 8) byte)))) bytes

abbrev pub rk_crc16 : List ℕ → ℕ
rk_crc16 bytes = rk_crc16_from crc16_init bytes

-- `s[i], s[j] = s[j], s[i]`.
abbrev pub swap : ℕ → ℕ → List ℕ → List ℕ
swap i j s = set (set s i (get_or s j 0)) j (get_or s i 0)

-- `list(range(i, i + n))`.
abbrev pub range_from : ℕ → ℕ → List ℕ
range_from i zero = []
range_from i (suc n) = i ∷ range_from (i + 1) n

-- The rounds of the key schedule that are left.
unfoldable pub schedule : ℕ → ℕ → ℕ → List ℕ → List ℕ → List ℕ
schedule zero i j key s = s
schedule (suc rounds) i j key s =
    let j' = u8 (j + get_or s i 0 + get_or key (i % length key) 0) in
    schedule rounds (i + 1) j' key (swap i j' s)

-- The output bytes.
unfoldable pub rc4_loop : ℕ → ℕ → List ℕ → List ℕ → List ℕ
rc4_loop i j s [] = []
rc4_loop i j s (byte ∷ bytes) =
    let i' = u8 (i + 1) in
    let j' = u8 (j + get_or s i' 0) in
    let s' = swap i' j' s in
    bit_xor byte (get_or s' (u8 (get_or s' i' 0 + get_or s' j' 0)) 0) ∷ rc4_loop i' j' s' bytes

-- `i % len(key)` has no value for an empty key.
unfoldable pub rc4 : List ℕ → List ℕ → Result (List ℕ)
rc4 bytes key = do
  guard (not (length key == 0)) zero_division_error
  ok (rc4_loop 0 0 (schedule 256 0 0 key (range_from 0 256)) bytes)

rc4_loop-rc4_loop :
    (bytes : List ℕ) (i j : ℕ) (s : List ℕ) → rc4_loop i j s (rc4_loop i j s bytes) ≡ bytes
unfolding rc4_loop
rc4_loop-rc4_loop [] i j s = refl
rc4_loop-rc4_loop (byte ∷ bytes) i j s = ap₂ ◌∷◌ (xor_cancel byte _) (rc4_loop-rc4_loop bytes _ _ _)

length-rc4_loop :
    (bytes : List ℕ) (i j : ℕ) (s : List ℕ) → length (rc4_loop i j s bytes) ≡ length bytes
unfolding rc4_loop
length-rc4_loop [] i j s = refl
length-rc4_loop (byte ∷ bytes) i j s = ap suc (length-rc4_loop bytes _ _ _)

-- With any key that is not empty RC4 is its own inverse.
pub rc4-rc4 :
    (bytes key : List ℕ) → 0 < length key → (rc4 bytes key >>= λ out. rc4 out key) ≡ ok bytes
unfolding rc4
rc4-rc4 bytes key some_key =
    let keyed : not (length key == 0) ≡ true = ground arith in
    rw keyed (ap ok (rc4_loop-rc4_loop bytes 0 0 (schedule 256 0 0 key (range_from 0 256))))

-- The boot ROM's key always works.
pub rc4_total :
    (bytes : List ℕ)
    → (out : List ℕ) × (rc4 bytes rk_rc4_key ≡ ok out) × (length out ≡ length bytes)
unfolding rc4
rc4_total bytes =
    let s = schedule 256 0 0 rk_rc4_key (range_from 0 256) in
    (rc4_loop 0 0 s bytes, refl, length-rc4_loop bytes 0 0 s)

pub rk_crc16_from-lt : (bytes : List ℕ) (crc : ℕ) → rk_crc16_from crc bytes < 65536
unfolding rk_crc16_from
rk_crc16_from-lt [] crc = omega arith
rk_crc16_from-lt (byte ∷ bytes) crc = rk_crc16_from-lt bytes _
