-- ===== src/Rockusb/Tests.antt =====
-- The Rockchip theorems at concrete blobs and commands.
use openipc_defib.Prelude.{
  ℕ, ◌≡◌, refl, arith, List, [], ◌∷◌, ◌++◌, length, replicate, bytes_eq, false, none, some, ◌⊎◌,
  ◌==◌, ◌%◌, ◌^◌, if◌then◌else◌,
}
use openipc_defib.Struct.{pack_be, pack_le, le_bytes, be_bytes, unpack_le, le_value}
use openipc_defib.Crc.{table_at}
use openipc_defib.Prelude.Result.{zero_division_error, ok, err, rockusb_error, value_error}
use openipc_defib.Rockusb.Codec.{rc4, rk_crc16_from, rk_crc16}
use openipc_defib.Rockusb.Codec.Cipher.{scheduled, enciphered, rc4-enciphered}
use openipc_defib.Rockusb.Loader.{
  LoaderBlobs, parse_loader, parse_entries, parse_rest, parse_entry, rstrip_zeros,
}
use openipc_defib.Rockusb.Loader.Whole.{Loaded, parse_loader-Loaded}
use openipc_defib.Rockusb.Protocol.{
  Command, declared_length, build_cdb, build_cbw, cdb_length, parse_csw, split_lba_transfers,
}
use openipc_defib.Rockusb.Protocol.Transfers.{Covers, split_lba_transfers-Covers}
use openipc_defib.Rockusb.Protocol.Wrappers.{IsCbw, build_cbw-IsCbw, csw, parse_csw-csw}

abbrev blob : List ℕ
blob = 1 ∷ 2 ∷ 3 ∷ []

-- A loader of one blob for each stage, with a table entry of 52 bytes each.
abbrev loader_entry : ℕ → ℕ → List ℕ
loader_entry at delay = replicate 40 0 ++ (at ∷ 0 ∷ 0 ∷ 0 ∷ 2 ∷ 0 ∷ 0 ∷ 0 ∷ delay ∷ 0 ∷ 0 ∷ 0 ∷ [])

abbrev loader_file : List ℕ
loader_file =
    (0x42 ∷ 0x4f ∷ 0x4f ∷ 0x54 ∷ replicate 21 0)
    ++ ((1 ∷ 64 ∷ 0 ∷ 0 ∷ 0 ∷ 52 ∷ 1 ∷ 116 ∷ 0 ∷ 0 ∷ 0 ∷ 52 ∷ replicate 27 0)
        ++ (loader_entry 168 1 ++ (loader_entry 170 0 ++ (7 ∷ 8 ∷ 9 ∷ 10 ∷ []))))

abbrev loader_blobs : LoaderBlobs
loader_blobs = record {
  ddr = record { name = []; content = 7 ∷ 8 ∷ []; delay_ms = 1 } ∷ [];
  usbplug = record { name = []; content = 9 ∷ 10 ∷ []; delay_ms = 0 } ∷ [];
  rc4_disabled = false;
}

loader_file-parsed : parse_loader (λ bytes. bytes) loader_file ≡ ok loader_blobs
unfolding parse_loader parse_entries parse_rest parse_entry unpack_le le_value bytes_eq rstrip_zeros
loader_file-parsed = refl

parse_loader-Loaded_example :
    Loaded (λ bytes. bytes) loader_file (parse_loader (λ bytes. bytes) loader_file)
parse_loader-Loaded_example = parse_loader-Loaded (λ bytes. bytes) loader_file

split_lba_transfers-Covers_example :
    ((pairs : List (ℕ × ℕ)) × (split_lba_transfers 8 1100 512 ≡ ok pairs) × Covers 512 8 1100 pairs)
    ⊎ ((split_lba_transfers 8 1100 512 ≡ err value_error) × (◌≡◌ {A = ℕ} 512 0))
split_lba_transfers-Covers_example = split_lba_transfers-Covers 8 1100 512

parse_csw-csw_example :
    (parse_csw (csw 7 0 1 ++ []) none ≡ ok (record { tag = 7; residue = 0; status = 1 }))
    × (parse_csw (csw 7 0 1 ++ []) (some 8) ≡ (
        if 7 == 8 % 2 ^ 32
        then ok (record { tag = 7; residue = 0; status = 1 })
        else err rockusb_error))
parse_csw-csw_example = parse_csw-csw 7 0 1 8 [] (omega arith) (omega arith)

abbrev write_command : Command
write_command = record {
  tag = 9;
  opcode = 0x15;
  subcode = 3;
  address = 0x1234;
  count = 2;
  transfer_length = 0;
  direction_in = false;
}

abbrev write_cbw : List ℕ
write_cbw =
    0x55 ∷ 0x53 ∷ 0x42 ∷ 0x43 ∷ 9 ∷ 0 ∷ 0 ∷ 0 ∷ 0 ∷ 4 ∷ 0 ∷ 0 ∷ 0 ∷ 0 ∷ 10 ∷ 0x15 ∷ 3 ∷ 0 ∷ 0 ∷ 0x12
    ∷ 0x34 ∷ 0 ∷ 0 ∷ 2 ∷ 0 ∷ 0 ∷ 0 ∷ 0 ∷ 0 ∷ 0 ∷ 0 ∷ []

write-built : build_cbw write_command ≡ ok write_cbw
unfolding build_cbw build_cdb declared_length cdb_length pack_be pack_le le_bytes be_bytes
write-built = refl

build_cbw-IsCbw_example : IsCbw write_command write_cbw
build_cbw-IsCbw_example = build_cbw-IsCbw write_command write_cbw write-built

abbrev short_key : List ℕ
short_key = 7 ∷ 9 ∷ []

rc4-enciphered_example : rc4 blob short_key ≡ (
    if length short_key == 0
    then err zero_division_error
    else ok (enciphered 0 0 (scheduled short_key 256).1 blob))
rc4-enciphered_example = rc4-enciphered blob short_key

-- CRC-16/CCITT-FALSE of "123456789".
rk_crc16_check :
    rk_crc16 (0x31 ∷ 0x32 ∷ 0x33 ∷ 0x34 ∷ 0x35 ∷ 0x36 ∷ 0x37 ∷ 0x38 ∷ 0x39 ∷ []) ≡ 0x29b1
unfolding rk_crc16_from table_at
rk_crc16_check = refl
