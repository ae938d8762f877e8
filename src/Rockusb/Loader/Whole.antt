-- ===== src/Rockusb/Loader/Whole.antt =====
-- A loader file as a whole.
use openipc_defib.Prelude.{
  ℕ, ◌≤◌, ◌<◌, ◌≡◌, ◌+◌, refl, arith, List, [], ◌∷◌, length, slice, get_or, true, not, ◌||◌, ltb,
  ◌==◌, bytes_eq, Bool-cases, inl, inr,
}
use openipc_defib.Prelude.Result.{Result, ok, err, loader_format_error, ◌>>=◌}
use openipc_defib.Struct.{le_value}
use openipc_defib.Rockusb.Loader.{LoaderEntry, LoaderBlobs, parse_loader, tag_boot, tag_loader}
use openipc_defib.Rockusb.Loader.Entries.{EntriesAt, Parsed, parse_entries-Parsed, unpack_le_ok}

-- A field of the header.
abbrev pub field : List ℕ → ℕ → ℕ → ℕ
field bytes n at = le_value (slice at n bytes)

-- The entries of one stage, whose count, place and size the header has at `at`.
pub record IsStage (decode_name : List ℕ → List ℕ) (bytes : List ℕ) (at : ℕ)
    (entries : List LoaderEntry) : Type 0 where
  pub some_entry : 0 < length entries
  pub count : length entries ≡ field bytes 1 at
  pub big : 52 ≤ field bytes 1 (at + 5)
  pub each : EntriesAt decode_name bytes (field bytes 4 (at + 1)) (field bytes 1 (at + 5)) 0 entries

-- What the blobs are of the file; or the one error.
pub record IsLoader (decode_name : List ℕ → List ℕ) (bytes : List ℕ) (b : LoaderBlobs)
    : Type 0 where
  pub long : 64 ≤ length bytes
  pub tagged :
      (bytes_eq (slice 0 4 bytes) (0x42 ∷ 0x4f ∷ 0x4f ∷ 0x54 ∷ [])
        || bytes_eq (slice 0 4 bytes) (0x4c ∷ 0x44 ∷ 0x52 ∷ 0x20 ∷ []))
      ≡ true
  pub ddr_stage : IsStage decode_name bytes 25 b.ddr
  pub usbplug_stage : IsStage decode_name bytes 31 b.usbplug
  pub flag : b.rc4_disabled ≡ not (get_or bytes 44 0 == 0)

abbrev pub Loaded : (List ℕ → List ℕ) → List ℕ → Result LoaderBlobs → Type 0
Loaded decode_name bytes (ok b) = IsLoader decode_name bytes b
Loaded decode_name bytes (err e) = e ≡ loader_format_error

module _ (decode_name : List ℕ → List ℕ) (bytes : List ℕ) where
  both :
      (r s : Result (List LoaderEntry))
      → 64 ≤ length bytes
      → (bytes_eq (slice 0 4 bytes) tag_boot || bytes_eq (slice 0 4 bytes) tag_loader) ≡ true
      → 0 < field bytes 1 25
      → 0 < field bytes 1 31
      → Parsed decode_name bytes (field bytes 4 26) (field bytes 1 30) (field bytes 1 25) r
      → Parsed decode_name bytes (field bytes 4 32) (field bytes 1 36) (field bytes 1 31) s
      → Loaded decode_name bytes (
          r >>= λ ddr. s >>= λ usbplug.
          ok (record { ddr = ddr; usbplug = usbplug; rc4_disabled = not (get_or bytes 44 0 == 0) }))
  both (err e) s long tagged hn hm hr hs = hr
  both (ok ddr) (err e) long tagged hn hm hr hs = hs
  both (ok ddr) (ok usbplug) long tagged hn hm (nb, nd, ad) (mb, nu, au) = record {
    long = long;
    tagged = tagged;
    ddr_stage = record { some_entry = omega (arith, nd); count = nd; big = nb; each = ad };
    usbplug_stage = record { some_entry = omega (arith, nu); count = nu; big = mb; each = au };
    flag = refl;
  }

  -- Whatever the file, `parse_loader` raises a LoaderFormatError, or returns blobs of both stages: as
  -- many as the header counts, at least one of each, each with the name and the delay that its table
  -- entry has, and with the data at the place that the entry names, which is wholly within the file.
  pub parse_loader-Loaded : Loaded decode_name bytes (parse_loader decode_name bytes)
  unfolding parse_loader
  parse_loader-Loaded = elim (Bool-cases (ltb (length bytes) 64)) [
    | inl short ↦ rw short refl
    | inr long ↦
        let enough : 64 ≤ length bytes = ground arith in
        rw
          (
            long,
            unpack_le_ok 1 25 bytes (omega arith),
            unpack_le_ok 4 26 bytes (omega arith),
            unpack_le_ok 1 30 bytes (omega arith),
            unpack_le_ok 1 31 bytes (omega arith),
            unpack_le_ok 4 32 bytes (omega arith),
            unpack_le_ok 1 36 bytes (omega arith),
          )
          (elim (Bool-cases
            (bytes_eq (slice 0 4 bytes) tag_boot || bytes_eq (slice 0 4 bytes) tag_loader)) [
              | inr other ↦ rw other refl
              | inl tagged ↦ elim (Bool-cases (field bytes 1 25 == 0 || field bytes 1 31 == 0)) [
                | inl none_there ↦ rw (tagged, none_there) refl
                | inr there ↦
                    rw (tagged, there)
                      (both _ _ enough tagged (ground arith) (ground arith)
                        (parse_entries-Parsed decode_name bytes _ _ (field bytes 1 25))
                        (parse_entries-Parsed decode_name bytes _ _ (field bytes 1 31)))
              ]
            ])
  ]
