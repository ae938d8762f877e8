-- ===== src/Rockusb/Loader.antt =====
-- src/defib/rockusb/loader.py: the blobs of a boot container.
pub mod Entries
pub mod Whole
use openipc_defib.Prelude.{
  ℕ, zero, suc, ◌+◌, ◌-◌, ◌*◌, ◌≤◌, ◌<◌, ◌≡◌, refl, sym, ap, ◌∙◌, arith, List, [], ◌∷◌, ◌++◌,
  length, slice, get_or, All, Bool, true, false, ◌||◌, not, ltb, leb, ◌==◌, bytes_eq, if◌then◌else◌,
}
use openipc_defib.Prelude.Result.{
  Result, Error, ok, err, guard, loader_format_error, Result-cases, ◌>>=◌, ◌>>◌,
}
use openipc_defib.Struct.{unpack_le, le_value}

-- TAG_BOOT and TAG_LOADER.
abbrev pub tag_boot : List ℕ
tag_boot = 0x42 ∷ 0x4f ∷ 0x4f ∷ 0x54 ∷ []

abbrev pub tag_loader : List ℕ
tag_loader = 0x4c ∷ 0x44 ∷ 0x52 ∷ 0x20 ∷ []

abbrev pub entry_trailer : ℕ
entry_trailer = 12

abbrev pub entry_name_bytes : ℕ
entry_name_bytes = 40

-- A name is its characters.
pub record LoaderEntry : Type 0 where
  pub name : List ℕ
  pub content : List ℕ
  pub delay_ms : ℕ

pub record LoaderBlobs : Type 0 where
  pub ddr : List LoaderEntry
  pub usbplug : List LoaderEntry
  pub rc4_disabled : Bool

-- `name.rstrip("\x00")`.
unfoldable pub rstrip_zeros : List ℕ → List ℕ
rstrip_zeros [] = []
rstrip_zeros (c ∷ cs) = elim (rstrip_zeros cs) [
  | [] ↦ if c == 0 then [] else c ∷ []
  | d ∷ ds ↦ c ∷ d ∷ ds
]

abbrev pub is_blank : List ℕ → Bool
is_blank [] = true
is_blank (b ∷ bs) = false

abbrev pub ddr_name : List ℕ
ddr_name = 0x64 ∷ 0x64 ∷ 0x72 ∷ []

abbrev pub usbplug_name : List ℕ
usbplug_name = 0x75 ∷ 0x73 ∷ 0x62 ∷ 0x70 ∷ 0x6c ∷ 0x75 ∷ 0x67 ∷ []

unfoldable pub raw_blobs : List ℕ → List ℕ → Bool → Result LoaderBlobs
raw_blobs ddr usbplug use_rc4 = do
  guard (not (is_blank ddr || is_blank usbplug)) loader_format_error
  ok (record {
    ddr = record { name = ddr_name; content = ddr; delay_ms = 0 } ∷ [];
    usbplug = record { name = usbplug_name; content = usbplug; delay_ms = 0 } ∷ [];
    rc4_disabled = not use_rc4;
  })

-- `decode_name` is the codec's `decode("utf-16-le", errors="replace")`, which never raises.
module _ (decode_name : List ℕ → List ℕ) where
  -- The entry that ends with the trailer at `base + entry_size`.
  unfoldable pub parse_entry : List ℕ → ℕ → ℕ → Result LoaderEntry
  parse_entry bytes base entry_size = do
    guard (not (ltb (length bytes) (base + entry_size))) loader_format_error
    let trailer = base + entry_size - entry_trailer
    data_offset ← unpack_le 4 trailer bytes
    data_size ← unpack_le 4 (trailer + 4) bytes
    delay_ms ← unpack_le 4 (trailer + 8) bytes
    guard (not (ltb (length bytes) (data_offset + data_size))) loader_format_error
    ok (record {
      name = rstrip_zeros (decode_name (slice (trailer - entry_name_bytes) entry_name_bytes bytes));
      content = slice data_offset data_size bytes;
      delay_ms = delay_ms;
    })

  -- `for i in range(count)`, with the entries that are left.
  unfoldable pub parse_rest : List ℕ → ℕ → ℕ → ℕ → ℕ → Result (List LoaderEntry)
  parse_rest bytes offset entry_size i zero = ok []
  parse_rest bytes offset entry_size i (suc left) = do
    entry ← parse_entry bytes (offset + i * entry_size) entry_size
    entries ← parse_rest bytes offset entry_size (i + 1) left
    ok (entry ∷ entries)

  unfoldable pub parse_entries : List ℕ → ℕ → ℕ → ℕ → Result (List LoaderEntry)
  parse_entries bytes offset entry_size count = do
    guard (not (ltb entry_size (entry_trailer + entry_name_bytes))) loader_format_error
    parse_rest bytes offset entry_size 0 count

  -- The tables begin behind 25 bytes of header.
  unfoldable pub parse_loader : List ℕ → Result LoaderBlobs
  parse_loader bytes = do
    guard (not (ltb (length bytes) 64)) loader_format_error
    guard (bytes_eq (slice 0 4 bytes) tag_boot || bytes_eq (slice 0 4 bytes) tag_loader)
        loader_format_error
    n471 ← unpack_le 1 25 bytes
    off471 ← unpack_le 4 26 bytes
    size471 ← unpack_le 1 30 bytes
    n472 ← unpack_le 1 31 bytes
    off472 ← unpack_le 4 32 bytes
    size472 ← unpack_le 1 36 bytes
    guard (not (n471 == 0 || n472 == 0)) loader_format_error
    ddr ← parse_entries bytes off471 size471 n471
    usbplug ← parse_entries bytes off472 size472 n472
    ok (record { ddr = ddr; usbplug = usbplug; rc4_disabled = not (get_or bytes 44 0 == 0) })
