-- ===== src/Rockusb/Protocol.antt =====
-- src/defib/rockusb/protocol.py: command and status wrappers, and the splitting of block ranges.
pub mod Wrappers
pub mod Transfers
use openipc_defib.Prelude.{
  ℕ, zero, suc, ◌+◌, ◌-◌, ◌*◌, min, List, [], ◌∷◌, ◌++◌, Bool, true, false, ◌&&◌, ◌||◌, not, Option,
  none, some, length, slice, ltb, ◌==◌, bytes_eq, if◌then◌else◌, replicate,
}
use openipc_defib.Prelude.Bits.{u32}
use openipc_defib.Prelude.Result.{Result, ok, err, guard, rockusb_error, value_error, ◌>>=◌, ◌>>◌}
use openipc_defib.Struct.{pack_be, pack_le, unpack_le, le_bytes}

abbrev pub cbw_signature : List ℕ
cbw_signature = 0x55 ∷ 0x53 ∷ 0x42 ∷ 0x43 ∷ []

abbrev pub csw_signature : List ℕ
csw_signature = 0x55 ∷ 0x53 ∷ 0x42 ∷ 0x53 ∷ []

abbrev pub csw_length : ℕ
csw_length = 13

abbrev pub sector_size : ℕ
sector_size = 512

abbrev pub max_sectors_per_transfer : ℕ
max_sectors_per_transfer = 512

abbrev pub direction_of : Bool → ℕ
direction_of true = 0x80
direction_of false = 0x00

-- The members of `Opcode` that the framing distinguishes.
abbrev pub erase_normal : ℕ
erase_normal = 0x06

abbrev pub read_lba : ℕ
read_lba = 0x14

abbrev pub write_lba : ℕ
write_lba = 0x15

abbrev pub erase_lba : ℕ
erase_lba = 0x25

-- `opcode in _ADDRESSED_OPCODES`.
abbrev pub is_addressed : ℕ → Bool
is_addressed opcode = opcode == read_lba || (opcode == write_lba || opcode == erase_lba)

abbrev pub residue_is_meaningful : ℕ → Bool
residue_is_meaningful opcode = is_addressed opcode

unfoldable pub cdb_length : ℕ → ℕ
cdb_length opcode = if is_addressed opcode then 10 else 6

pub record FlashInfo : Type 0 where
  pub sectors : ℕ
  pub block_sectors : ℕ
  pub page_sectors : ℕ
  pub ecc_bits : ℕ
  pub access_time : ℕ
  pub manufacturer : ℕ
  pub flash_mask : ℕ

abbrev pub size_bytes : FlashInfo → ℕ
size_bytes info = info.sectors * sector_size

abbrev pub block_bytes : FlashInfo → ℕ
block_bytes info = info.block_sectors * sector_size

abbrev pub page_bytes : FlashInfo → ℕ
page_bytes info = info.page_sectors * sector_size

abbrev pub flash_info_length : ℕ
flash_info_length = 11

-- `struct.unpack_from("<IHBBBBB", data)`.
unfoldable pub parse_flash_info : List ℕ → Result FlashInfo
parse_flash_info bytes = do
  guard (not (ltb (length bytes) flash_info_length)) rockusb_error
  sectors ← unpack_le 4 0 bytes
  block ← unpack_le 2 4 bytes
  page ← unpack_le 1 6 bytes
  ecc ← unpack_le 1 7 bytes
  access ← unpack_le 1 8 bytes
  mfr ← unpack_le 1 9 bytes
  mask ← unpack_le 1 10 bytes
  guard (not (sectors == 0)) rockusb_error
  ok (record {
    sectors = sectors;
    block_sectors = block;
    page_sectors = page;
    ecc_bits = ecc;
    access_time = access;
    manufacturer = mfr;
    flash_mask = mask;
  })

-- The arguments of `build_cbw`.
pub record Command : Type 0 where
  pub tag : ℕ
  pub opcode : ℕ
  pub subcode : ℕ
  pub address : ℕ
  pub count : ℕ
  pub transfer_length : ℕ
  pub direction_in : Bool

-- The length of the data phase: erasing has a count, but moves no data.
unfoldable pub declared_length : Command → ℕ
declared_length c =
    if c.transfer_length == 0
      && (not (c.count == 0) && not (c.opcode == erase_lba || c.opcode == erase_normal))
    then c.count * sector_size
    else c.transfer_length

-- `struct.pack(">BB I B H 7x", ...)`.
unfoldable pub build_cdb : Command → Result (List ℕ)
build_cdb c = do
  op ← pack_be 1 c.opcode
  sub ← pack_be 1 c.subcode
  addr ← pack_be 4 c.address
  cnt ← pack_be 2 c.count
  ok (op ++ (sub ++ (addr ++ (0 ∷ (cnt ++ replicate 7 0)))))

unfoldable pub build_cbw : Command → Result (List ℕ)
build_cbw c = do
  cdb ← build_cdb c
  tag ← pack_le 4 (u32 c.tag)
  len ← pack_le 4 (declared_length c)
  ok (
      cbw_signature
      ++ (tag ++ (len ++ (direction_of c.direction_in ∷ 0 ∷ cdb_length c.opcode ∷ cdb))))

-- `(tag, residue, status)`.
pub record Status : Type 0 where
  pub tag : ℕ
  pub residue : ℕ
  pub status : ℕ

-- `expected_tag is not None and tag != (expected_tag & 0xFFFFFFFF)`.
abbrev pub is_answer : Option ℕ → ℕ → Bool
is_answer none tag = true
is_answer (some expected) tag = tag == u32 expected

unfoldable pub parse_csw : List ℕ → Option ℕ → Result Status
parse_csw bytes expected_tag = do
  guard (not (ltb (length bytes) csw_length)) rockusb_error
  guard (bytes_eq (slice 0 4 bytes) csw_signature) rockusb_error
  tag ← unpack_le 4 4 bytes
  residue ← unpack_le 4 8 bytes
  status ← unpack_le 1 12 bytes
  guard (is_answer expected_tag tag) rockusb_error
  ok (record { tag = tag; residue = residue; status = status })

-- `while remaining > 0`, with fuel for the sectors.
unfoldable pub split_loop : ℕ → ℕ → ℕ → ℕ → List (ℕ × ℕ)
split_loop zero lba remaining max_sectors = []
split_loop (suc fuel) lba remaining max_sectors =
    let count = min remaining max_sectors in
    let rest = split_loop fuel (lba + count) (remaining - count) max_sectors in
    if ltb 0 remaining then (lba, count) ∷ rest else []

-- A number of sectors is not negative here.
unfoldable pub split_lba_transfers : ℕ → ℕ → ℕ → Result (List (ℕ × ℕ))
split_lba_transfers start_lba total_sectors max_sectors = do
  guard (ltb 0 max_sectors) value_error
  ok (split_loop total_sectors start_lba total_sectors max_sectors)
