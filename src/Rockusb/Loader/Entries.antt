-- ===== src/Rockusb/Loader/Entries.antt =====
-- What a parsed loader holds of its file, and what parsing raises.
use openipc_defib.Prelude.{
  ℕ, zero, suc, ◌+◌, ◌-◌, ◌*◌, ◌≤◌, ◌<◌, ◌≡◌, refl, ap, arith, List, [], ◌∷◌, length, slice, ltb,
  if◌then◌else◌, Bool-cases, inl, inr,
}
use openipc_defib.Prelude.Result.{Result, ok, err, loader_format_error, ◌>>=◌}
use openipc_defib.Struct.{unpack_le, le_value}
use openipc_defib.Rockusb.Loader.{
  LoaderEntry, rstrip_zeros, entry_trailer, entry_name_bytes, parse_entry, parse_rest,
  parse_entries,
}

-- The 32-bit number at a place in the file.
abbrev pub word : List ℕ → ℕ → ℕ
word bytes at = le_value (slice at 4 bytes)

-- What an entry holds of the file whose table has its last three fields at `trailer`: the 40 bytes
-- before them are its name, and its data is where they say, wholly within the file.
pub record IsEntryAt (decode_name : List ℕ → List ℕ) (bytes : List ℕ) (trailer : ℕ)
    (e : LoaderEntry) : Type 0 where
  pub table : trailer + 12 ≤ length bytes
  pub name : e.name ≡ rstrip_zeros (decode_name (slice (trailer - 40) 40 bytes))
  pub inside : word bytes trailer + word bytes (trailer + 4) ≤ length bytes
  pub content : e.content ≡ slice (word bytes trailer) (word bytes (trailer + 4)) bytes
  pub delay : e.delay_ms ≡ word bytes (trailer + 8)

-- A result is the entry there, or the one error.
abbrev ParsedOne : (List ℕ → List ℕ) → List ℕ → ℕ → Result LoaderEntry → Type 0
ParsedOne decode_name bytes trailer (ok e) = IsEntryAt decode_name bytes trailer e
ParsedOne decode_name bytes trailer (err e) = e ≡ loader_format_error

-- The entries of a table of `entry_size` bytes each, from number `i` on.
abbrev pub EntriesAt : (List ℕ → List ℕ) → List ℕ → ℕ → ℕ → ℕ → List LoaderEntry → Type 0
EntriesAt decode_name bytes offset entry_size i [] = Unit
EntriesAt decode_name bytes offset entry_size i (e ∷ es) =
    IsEntryAt decode_name bytes (offset + i * entry_size + entry_size - 12) e
    × EntriesAt decode_name bytes offset entry_size (i + 1) es

-- The entries `i` and on of the table, as many as are left.
abbrev ParsedFrom : (List ℕ → List ℕ) → List ℕ → ℕ → ℕ → ℕ → ℕ → Result (List LoaderEntry) → Type 0
ParsedFrom decode_name bytes offset entry_size i left (ok entries) =
    (length entries ≡ left) × EntriesAt decode_name bytes offset entry_size i entries
ParsedFrom decode_name bytes offset entry_size i left (err e) = e ≡ loader_format_error

-- A result is of all the entries of the table, or the one error.
abbrev pub Parsed : (List ℕ → List ℕ) → List ℕ → ℕ → ℕ → ℕ → Result (List LoaderEntry) → Type 0
Parsed decode_name bytes offset entry_size count (ok entries) =
    (52 ≤ entry_size)
    × (length entries ≡ count)
    × EntriesAt decode_name bytes offset entry_size 0 entries
Parsed decode_name bytes offset entry_size count (err e) = e ≡ loader_format_error

pub unpack_le_ok :
    (n at : ℕ) (bytes : List ℕ)
    → at + n ≤ length bytes
    → unpack_le n at bytes ≡ ok (le_value (slice at n bytes))
unfolding unpack_le
unpack_le_ok n at bytes h = ground arith

module _ (decode_name : List ℕ → List ℕ) (bytes : List ℕ) where
  parse_entry_lem :
      (base entry_size : ℕ)
      → 52 ≤ entry_size
      → base + entry_size ≤ length bytes
      → parse_entry decode_name bytes base entry_size ≡ (
          let trailer = base + entry_size - 12 in
          let data_offset = le_value (slice trailer 4 bytes) in
          let data_size = le_value (slice (trailer + 4) 4 bytes) in
          if ltb (length bytes) (data_offset + data_size)
          then err loader_format_error
          else ok (record {
            name = rstrip_zeros (decode_name (slice (trailer - 40) 40 bytes));
            content = slice data_offset data_size bytes;
            delay_ms = le_value (slice (trailer + 8) 4 bytes);
          }))
  unfolding parse_entry
  parse_entry_lem base entry_size big inside =
      let trailer = base + entry_size - 12 in
      rw
        (
          unpack_le_ok 4 trailer bytes (omega arith),
          unpack_le_ok 4 (trailer + 4) bytes (omega arith),
          unpack_le_ok 4 (trailer + 8) bytes (omega arith),
        )
        (ground arith)

  parse_entry_short :
      (base entry_size : ℕ)
      → length bytes < base + entry_size
      → parse_entry decode_name bytes base entry_size ≡ err loader_format_error
  unfolding parse_entry
  parse_entry_short base entry_size short = ground arith

  parse_entry-ParsedOne :
      (base entry_size : ℕ)
      → 52 ≤ entry_size
      → ParsedOne decode_name bytes
          (base + entry_size - 12)
          (parse_entry decode_name bytes base entry_size)
  parse_entry-ParsedOne base entry_size big =
      elim (Bool-cases (ltb (length bytes) (base + entry_size))) [
        | inl short ↦ rw (parse_entry_short base entry_size (ground arith)) refl
        | inr long ↦
            let trailer = base + entry_size - 12 in
            let data_offset = le_value (slice trailer 4 bytes) in
            let data_size = le_value (slice (trailer + 4) 4 bytes) in
            let step = parse_entry_lem base entry_size big (ground arith) in
            elim (Bool-cases (ltb (length bytes) (data_offset + data_size))) [
              | inl past ↦ rw (step, past) refl
              | inr inside ↦
                  rw (step, inside)
                    (record {
                      table = ground arith;
                      name = refl;
                      inside = ground arith;
                      content = refl;
                      delay = refl;
                    })
            ]
      ]

  append_entry :
      (offset entry_size i n : ℕ) (r : Result LoaderEntry) (rs : Result (List LoaderEntry))
      → ParsedOne decode_name bytes (offset + i * entry_size + entry_size - 12) r
      → ParsedFrom decode_name bytes offset entry_size (i + 1) n rs
      → ParsedFrom decode_name bytes offset entry_size i
          (suc n)
          (r >>= λ entry. rs >>= λ entries. ok (entry ∷ entries))
  append_entry offset entry_size i n (err e) rs h hs = h
  append_entry offset entry_size i n (ok entry) (err e) h hs = hs
  append_entry offset entry_size i n (ok entry) (ok entries) h (size, all) = (ap suc size, (h, all))

  parse_rest-ParsedFrom :
      (offset entry_size i left : ℕ)
      → 52 ≤ entry_size
      → ParsedFrom decode_name bytes offset entry_size i left
          (parse_rest decode_name bytes offset entry_size i left)
  unfolding parse_rest
  parse_rest-ParsedFrom offset entry_size i zero big = (refl, tt)
  parse_rest-ParsedFrom offset entry_size i (suc left) big =
      append_entry offset entry_size i left _ _
        (parse_entry-ParsedOne (offset + i * entry_size) entry_size big)
        (parse_rest-ParsedFrom offset entry_size (i + 1) left big)

  sized :
      (offset entry_size count : ℕ) (r : Result (List LoaderEntry))
      → 52 ≤ entry_size
      → ParsedFrom decode_name bytes offset entry_size 0 count r
      → Parsed decode_name bytes offset entry_size count r
  sized offset entry_size count (ok entries) big (size, all) = (big, size, all)
  sized offset entry_size count (err e) big h = h

  -- The entry table yields as many entries as it says, each as it stands in the table and with data
  -- that lies within the file, or a LoaderFormatError.
  pub parse_entries-Parsed :
      (offset entry_size count : ℕ)
      → Parsed decode_name bytes offset entry_size count
          (parse_entries decode_name bytes offset entry_size count)
  unfolding parse_entries
  parse_entries-Parsed offset entry_size count =
      elim (Bool-cases (ltb entry_size (entry_trailer + entry_name_bytes))) [
        | inl small ↦ rw small refl
        | inr big ↦ rw big (
            sized offset entry_size count _ (ground arith)
              (parse_rest-ParsedFrom offset entry_size 0 count (ground arith)))
      ]
