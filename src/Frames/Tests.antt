-- ===== src/Frames/Tests.antt =====
-- The frame theorems at concrete frames.
use openipc_defib.Prelude.{ℕ, ◌≡◌, refl, List, [], ◌∷◌}
use openipc_defib.Prelude.Result.{ok}
use openipc_defib.Struct.{pack_be, be_bytes}
use openipc_defib.Slices.{slices, slices_from}
use openipc_defib.Crc.{calc_crc_from, crc_byte, table_at}
use openipc_defib.Frames.{HeadFrame, DataFrame, encode_head, chunk_data}

abbrev sample : HeadFrame
sample = record { length = 64; address = 0x4013000 }

abbrev sample_frame : List ℕ
sample_frame =
    0xfe ∷ 0x00 ∷ 0xff ∷ 0x01 ∷ 0x00 ∷ 0x00 ∷ 0x00 ∷ 0x40 ∷ 0x04 ∷ 0x01 ∷ 0x30 ∷ 0x00 ∷ 0x51 ∷ 0x9c
    ∷ []

sample_encoded : encode_head sample ≡ ok sample_frame
unfolding encode_head calc_crc_from pack_be be_bytes crc_byte table_at
sample_encoded = refl

abbrev piece : DataFrame
piece = record { seq = 258; payload = 0x10 ∷ 0x20 ∷ [] }

abbrev message : List ℕ
message = 1 ∷ 2 ∷ 3 ∷ 4 ∷ 5 ∷ []

abbrev pieces : List (List ℕ)
pieces = (1 ∷ 2 ∷ []) ∷ (3 ∷ 4 ∷ []) ∷ (5 ∷ []) ∷ []

message-pieces : chunk_data message 2 ≡ ok pieces
unfolding chunk_data slices slices_from
message-pieces = refl
