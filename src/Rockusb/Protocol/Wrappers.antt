-- ===== src/Rockusb/Protocol/Wrappers.antt =====
-- What a device reads of a command wrapper, and the host of a status wrapper.
use openipc_defib.Prelude.{
  ℕ, ◌^◌, ◌<◌, ◌*◌, ◌%◌, ◌≡◌, ◌≢◌, refl, ap, arith, List, [], ◌∷◌, ◌++◌, length, slice, drop,
  get_or, replicate, ltb, if◌then◌else◌, none, some, bytes_eq, ◌⊎◌, inl, inr, Bool-cases, ◌==◌,
  ◌||◌, true,
}
use openipc_defib.Prelude.Bits.{u32}
use openipc_defib.Prelude.Result.{ok, err, rockusb_error, struct_error}
use openipc_defib.Struct.{
  pack_be, pack_le, le_bytes, be_bytes, le_value, unpack_le, unpack_be, le_value-le_bytes,
  be_value-be_bytes,
}
use openipc_defib.Rockusb.Protocol.{
  cbw_signature, csw_signature, direction_of, cdb_length, Command, declared_length, build_cdb,
  build_cbw, parse_csw, erase_lba, erase_normal,
}

-- The length of the data phase that a command announces: the one it names, else what its count of
-- sectors comes to, but nothing for the two commands that erase.
pub data DataPhase (c : Command) (n : ℕ) : Type 0 where
  named : 0 < c.transfer_length → n ≡ c.transfer_length → DataPhase c n
  erasing : c.transfer_length ≡ 0 → (c.opcode ≡ 0x25) ⊎ (c.opcode ≡ 0x06) → n ≡ 0 → DataPhase c n
  counted :
      c.transfer_length ≡ 0 → c.opcode ≢ 0x25 → c.opcode ≢ 0x06 → n ≡ c.count * 512 → DataPhase c n

-- The wrapper's 31 bytes, as the device reads them.
pub record IsCbw (c : Command) (bytes : List ℕ) : Type 0 where
  pub size : length bytes ≡ 31
  pub signature : slice 0 4 bytes ≡ 0x55 ∷ 0x53 ∷ 0x42 ∷ 0x43 ∷ []
  pub tag : unpack_le 4 4 bytes ≡ ok (c.tag % 2 ^ 32)
  pub announced : ℕ
  pub transfer : unpack_le 4 8 bytes ≡ ok announced
  pub phase : DataPhase c announced
  pub direction : get_or bytes 12 0 ≡ (if c.direction_in then 0x80 else 0)
  pub unit : get_or bytes 13 0 ≡ 0
  pub cdb_size :
      get_or bytes 14 0
      ≡ (if c.opcode == 0x14 || (c.opcode == 0x15 || c.opcode == 0x25) then 10 else 6)
  pub opcode : unpack_be 1 15 bytes ≡ ok c.opcode
  pub subcode : unpack_be 1 16 bytes ≡ ok c.subcode
  pub address : unpack_be 4 17 bytes ≡ ok c.address
  pub reserved : get_or bytes 21 0 ≡ 0
  pub count : unpack_be 2 22 bytes ≡ ok c.count
  pub padding : drop 24 bytes ≡ replicate 7 0

erase_cases :
    (opcode : ℕ)
    → (opcode == erase_lba || opcode == erase_normal) ≡ true
    → (opcode ≡ 0x25) ⊎ (opcode ≡ 0x06)
erase_cases opcode h = elim (Bool-cases (opcode == erase_lba)) [
  | inl lba ↦ inl (ground arith)
  | inr other ↦ inr (ground arith)
]

declared_length-DataPhase : (c : Command) → DataPhase c (declared_length c)
unfolding declared_length
declared_length-DataPhase c = elim (Bool-cases (c.transfer_length == 0)) [
  | inr given ↦ named (ground arith) (ground arith)
  | inl absent ↦ elim (Bool-cases (c.opcode == erase_lba || c.opcode == erase_normal)) [
    | inl erases ↦ erasing (ground arith) (erase_cases c.opcode erases) (ground arith)
    | inr moves ↦ counted (ground arith) (λ e. ground arith) (λ e. ground arith) (ground arith)
  ]
]

-- The bytes of a command whose fields fit.
abbrev layout : Command → List ℕ
layout c =
    let cdb =
      be_bytes 1 c.opcode
      ++ (be_bytes 1 c.subcode
          ++ (be_bytes 4 c.address ++ (0 ∷ (be_bytes 2 c.count ++ replicate 7 0)))) in
    let rest = direction_of c.direction_in ∷ 0 ∷ cdb_length c.opcode ∷ cdb in
    cbw_signature ++ (le_bytes 4 (u32 c.tag) ++ (le_bytes 4 (declared_length c) ++ rest))

layout-IsCbw :
    (c : Command)
    → declared_length c < 2 ^ 32
    → c.opcode < 256
    → c.subcode < 256
    → c.address < 2 ^ 32
    → c.count < 2 ^ 16
    → IsCbw c (layout c)
unfolding le_bytes be_bytes unpack_le unpack_be cdb_length
layout-IsCbw c hl ho hs ha hc = record {
  size = refl;
  signature = refl;
  tag = ap ok (le_value-le_bytes 4 (u32 c.tag) (omega arith));
  announced = declared_length c;
  transfer = ap ok (le_value-le_bytes 4 (declared_length c) hl);
  phase = declared_length-DataPhase c;
  direction = elim (Bool-cases c.direction_in) [ inl e ↦ rw e refl | inr e ↦ rw e refl ];
  unit = refl;
  cdb_size = refl;
  opcode = ap ok (be_value-be_bytes 1 c.opcode ho);
  subcode = ap ok (be_value-be_bytes 1 c.subcode hs);
  address = ap ok (be_value-be_bytes 4 c.address ha);
  reserved = refl;
  count = ap ok (be_value-be_bytes 2 c.count hc);
  padding = refl;
}

build_cbw_lem :
    (c : Command)
    → build_cbw c ≡ (
        if ltb c.opcode 256
        then (if ltb c.subcode 256
            then (if ltb c.address (2 ^ 32)
                then (if ltb c.count (2 ^ 16)
                    then (if ltb (declared_length c) (2 ^ 32)
                        then ok (layout c)
                        else err struct_error)
                    else err struct_error)
                else err struct_error)
            else err struct_error)
        else err struct_error)
unfolding build_cbw build_cdb pack_be pack_le
build_cbw_lem c = ground arith

-- A command wrapper that `build_cbw` returns has 31 bytes, and the device reads every argument back
-- from it: the tag modulo 2 ^ 32, the direction, opcode, subcode, address and count; besides it finds
-- the length of the data phase and of the command, and zero in the bytes that are reserved.
pub build_cbw-IsCbw : (c : Command) (bytes : List ℕ) → build_cbw c ≡ ok bytes → IsCbw c bytes
build_cbw-IsCbw c bytes h =
    let built : layout c ≡ bytes = ground (arith, build_cbw_lem c) in
    let hl : declared_length c < 2 ^ 32 = ground (arith, build_cbw_lem c) in
    let ho : c.opcode < 256 = ground (arith, build_cbw_lem c) in
    let hs : c.subcode < 256 = ground (arith, build_cbw_lem c) in
    let ha : c.address < 2 ^ 32 = ground (arith, build_cbw_lem c) in
    let hc : c.count < 2 ^ 16 = ground (arith, build_cbw_lem c) in
    rw built at (layout-IsCbw c hl ho hs ha hc)

-- A status wrapper as the device writes it.
abbrev pub csw : ℕ → ℕ → ℕ → List ℕ
csw tag residue status = csw_signature ++ (le_bytes 4 tag ++ (le_bytes 4 residue ++ status ∷ []))

-- The host reads back what the device wrote: any wrapper where it expects no tag, and where it
-- expects one, the wrapper whose tag is that one modulo 2 ^ 32; any other it refuses.
pub parse_csw-csw :
    (tag residue status expected : ℕ) (rest : List ℕ)
    → tag < 2 ^ 32
    → residue < 2 ^ 32
    → (parse_csw (csw tag residue status ++ rest) none
        ≡ ok (record { tag = tag; residue = residue; status = status }))
      × (parse_csw (csw tag residue status ++ rest) (some expected) ≡ (
          if tag == expected % 2 ^ 32
          then ok (record { tag = tag; residue = residue; status = status })
          else err rockusb_error))
unfolding parse_csw unpack_le le_bytes bytes_eq le_value
parse_csw-csw tag residue status expected rest ht hr = (
  ground (arith, le_value-le_bytes 4 tag ht, le_value-le_bytes 4 residue hr),
  ground (arith, le_value-le_bytes 4 tag ht, le_value-le_bytes 4 residue hr),
)
