-- ===== src/Crc/Tests.antt =====
-- The CRC theorems at concrete bytes.
use openipc_defib.Prelude.{ℕ, ◌≡◌, refl, arith, List, [], ◌∷◌, ◌++◌, false, inl}
use openipc_defib.Crc.{crc_byte, table_at, calc_crc, calc_crc_from, crc_be, verify_crc}
use openipc_defib.Crc.Serial.{serial_crc, calc_crc-serial}
use openipc_defib.Crc.Check.{verify_crc_burst}

abbrev sample : List ℕ
sample = 0x31 ∷ 0x32 ∷ 0x33 ∷ []

calc_crc_sample :
    calc_crc (0x31 ∷ 0x32 ∷ 0x33 ∷ 0x34 ∷ 0x35 ∷ 0x36 ∷ 0x37 ∷ 0x38 ∷ 0x39 ∷ []) ≡ 0x31c3
unfolding calc_crc_from crc_byte table_at
calc_crc_sample = refl

calc_crc-serial_example : calc_crc_from 0 sample ≡ serial_crc 0 (sample ++ 0 ∷ 0 ∷ [])
calc_crc-serial_example = calc_crc-serial 0 sample (omega arith) (omega arith)

verify_crc_burst_example :
    verify_crc ((sample ++ 0x08 ∷ 0x09 ∷ []) ++ crc_be (calc_crc (sample ++ 0x04 ∷ 0x09 ∷ [])))
    ≡ false
verify_crc_burst_example =
    verify_crc_burst 0x04 0x09 0x08 0x09 sample [] (omega arith) (omega arith) tt
      (inl (omega arith))
