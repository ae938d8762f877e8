-- ===== src/Crc.antt =====
-- src/defib/protocol/crc.py: the table-driven CRC-16/CCITT of the boot protocols.
mod Table
pub mod Facts
pub mod Serial
pub mod Check
pub mod Tests
use openipc_defib.Prelude.{ℕ, ◌+◌, ◌-◌, ◌≤◌, List, [], ◌∷◌, ◌++◌, Bool, false, length, get_or}
use openipc_defib.Prelude.{drop_last, ltb, ◌==◌, if◌then◌else◌, bit_or, bit_xor}
use openipc_defib.Prelude.Bits.{shl, shr, u8, u16}
unfoldable pub use Table.{crc_table, table_at}

-- One round of `for byte in data`. The register is not masked here: it grows with the input.
unfoldable pub crc_byte : ℕ → ℕ → ℕ
crc_byte crc byte = bit_xor (bit_or (shl crc 8) byte) (table_at (u8 (shr crc 8)))

unfoldable pub crc_bytes : ℕ → List ℕ → ℕ
crc_bytes crc [] = crc
crc_bytes crc (byte ∷ rest) = crc_bytes (crc_byte crc byte) rest

-- `calc_crc(data, crc)`, with the two zero bytes that finalize it.
unfoldable pub calc_crc_from : ℕ → List ℕ → ℕ
unfolding crc_bytes
calc_crc_from crc bytes = u16 (crc_byte (crc_byte (crc_bytes crc bytes) 0) 0)

-- `calc_crc(data)`.
abbrev pub calc_crc : List ℕ → ℕ
calc_crc bytes = calc_crc_from 0 bytes

-- `bytes([(crc >> 8) & 0xFF, crc & 0xFF])`, and the bytes the other way round.
abbrev pub crc_be : ℕ → List ℕ
crc_be crc = u8 (shr crc 8) ∷ u8 crc ∷ []

abbrev pub crc_le : ℕ → List ℕ
crc_le crc = u8 crc ∷ u8 (shr crc 8) ∷ []

unfoldable pub append_crc : List ℕ → List ℕ
append_crc bytes = bytes ++ crc_be (calc_crc bytes)

unfoldable pub append_crc_le : List ℕ → List ℕ
append_crc_le bytes = bytes ++ crc_le (calc_crc bytes)

-- `frame[-2]` and `frame[-1]` exist where the length is at least 3.
unfoldable pub verify_crc : List ℕ → Bool
verify_crc frame =
    if ltb (length frame) 3
    then false
    else calc_crc (drop_last 2 frame)
      == bit_or (shl (get_or frame (length frame - 2) 0) 8) (get_or frame (length frame - 1) 0)
