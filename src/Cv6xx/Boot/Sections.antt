-- ===== src/Cv6xx/Boot/Sections.antt =====
-- What the parser's sections are of the file, and what a wrapped payload is to it.
use openipc_defib.Prelude.{
  ℕ, zero, suc, ◌+◌, ◌^◌, ◌≤◌, ◌<◌, ◌≡◌, refl, sym, ap, ◌∙◌, arith, List, [], ◌∷◌, ◌++◌,
  append_assoc, length, length-append, length-take, length-drop, slice, take, drop, take-append,
  drop-append, ltb, leb, ◌==◌, some, inl, inr, Bool-cases,
}
use openipc_defib.Prelude.Result.{
  protocol_error, Result, ok, err, guard, ◌>>=◌, Option-cases, ok_injective,
}
use openipc_defib.Struct.{
  pack_le, unpack_le, le_bytes, length-le_bytes, unpack_le-le_bytes, slice-field,
}
use openipc_defib.Search.{find_in, find_from, Found, find_in-Found}
use openipc_defib.Cv6xx.Boot.{
  Cv6xxBootParts, cv6xx_gsl_magic, cv6xx_ddr_params_magic, uboot_magic_bytes, uboot_section,
  parse_cv6xx_boot, wrap_cv6xx_payload,
}

module _ {ℓ κ} {A : Type ℓ} {B : Type κ} where
  passed :
      (m : Result A) (k : A → Result B) (b : B)
      → (m >>= k) ≡ ok b
      → (a : A) × (m ≡ ok a) × (k a ≡ ok b)
  passed (ok a) k b h = (a, refl, h)
  passed (err e) k b h = absurd (cc)

-- The wrapped blob, with the header's other bytes as they were.
pub record IsWrapped (header_source payload wrapped : List ℕ) : Type 0 where
  pub size : length wrapped ≡ 1024 + length payload
  pub announced : unpack_le 4 36 wrapped ≡ ok (length payload)
  pub front : take 36 wrapped ≡ take 36 header_source
  pub middle : slice 40 984 wrapped ≡ slice 40 984 header_source
  pub behind : drop 1024 wrapped ≡ payload

-- What `wrap_cv6xx_payload` returns, and when.
wrapped_form :
    (header_source payload wrapped : List ℕ)
    → wrap_cv6xx_payload header_source payload ≡ ok wrapped
    → (1024 ≤ length header_source)
      × (length payload < 256 ^ 4)
      × (wrapped
          ≡ (take 36 (take 1024 header_source)
              ++ (le_bytes 4 (length payload) ++ drop 40 (take 1024 header_source)))
            ++ payload)
unfolding wrap_cv6xx_payload pack_le
wrapped_form header_source payload wrapped h = elim (Bool-cases (ltb (length header_source) 1024)) [
  | inl short ↦ absurd (cc (rw (short, wrap_cv6xx_payload) at h))
  | inr long ↦ elim (Bool-cases (ltb (length payload) (256 ^ 4))) [
    | inr large ↦ absurd (cc (rw (long, large, wrap_cv6xx_payload) at h))
    | inl fits ↦
        (ground arith, ground arith, sym (ok_injective (rw (long, fits, wrap_cv6xx_payload) at h)))
  ]
]

take-take : (n m : ℕ) (xs : List ℕ) → n ≤ m → take n (take m xs) ≡ take n xs
take-take zero m xs h = refl
take-take (suc n) zero xs h = absurd (omega arith)
take-take (suc n) (suc m) [] h = refl
take-take (suc n) (suc m) (x ∷ xs) h = ap (λ (t : List ℕ). x ∷ t) (take-take n m xs (omega arith))

drop-take : (n m k : ℕ) (xs : List ℕ) → k ≡ n + m → drop n (take k xs) ≡ take m (drop n xs)
drop-take zero m k xs e = ap (λ (j : ℕ). take j xs) (omega arith)
drop-take (suc n) m zero xs e = absurd (omega arith)
drop-take (suc n) zero (suc k) [] e = refl
drop-take (suc n) (suc m) (suc k) [] e = refl
drop-take (suc n) m (suc k) (x ∷ xs) e = drop-take n m k xs (omega arith)

-- A payload that is wrapped has the header of the source with its own length in it, and stands
-- behind the 1024 bytes of the header.
pub wrap_cv6xx_payload-IsWrapped :
    (header_source payload wrapped : List ℕ)
    → wrap_cv6xx_payload header_source payload ≡ ok wrapped
    → IsWrapped header_source payload wrapped
wrap_cv6xx_payload-IsWrapped header_source payload wrapped h =
    let (long, fits, form) = wrapped_form header_source payload wrapped h in
    let header = take 1024 header_source in
    let front = take 36 header in
    let field = le_bytes 4 (length payload) in
    let rest = drop 40 header in
    let header_size = length-take 1024 header_source in
    let front_size : length front ≡ 36 = omega (arith, length-take 36 header, header_size) in
    let field_size = length-le_bytes 4 (length payload) in
    let rest_size : length rest ≡ 984 = omega (arith, length-drop 40 header, header_size) in
    let inner = length-append field rest in
    let whole = length-append front (field ++ rest) in
    let flat : (front ++ (field ++ rest)) ++ payload ≡ front ++ (field ++ (rest ++ payload)) =
      rw (append_assoc, append_assoc) refl in
    let nested : (front ++ (field ++ rest)) ++ payload ≡ (front ++ field) ++ (rest ++ payload) =
      rw (append_assoc, append_assoc, append_assoc) refl in
    record {
      size = ap length form ∙ omega (arith, length-append (front ++ (field ++ rest)) payload);
      announced =
          rw (form ∙ flat)
            (unpack_le-le_bytes 4 (length payload) 36 front (rest ++ payload) front_size fits);
      front = rw (form ∙ flat) (
          take-append 36 front (field ++ (rest ++ payload)) front_size
          ∙ take-take 36 1024 header_source (omega arith));
      middle =
          rw
            (
              form ∙ nested,
              drop-append 40 (front ++ field) (rest ++ payload)
                  (omega (arith, length-append front field)),
            )
            (take-append 984 rest payload rest_size ∙ drop-take 40 984 1024 header_source refl);
      behind = rw form (drop-append 1024 (front ++ (field ++ rest)) payload (omega arith));
    }

-- In a boot file, the parser's U-Boot section at the place of the wrapped payload is the whole of it.
pub uboot_section-wrapped :
    (header_source payload wrapped before after : List ℕ)
    → wrap_cv6xx_payload header_source payload ≡ ok wrapped
    → uboot_section (before ++ (wrapped ++ after)) (some (length before)) ≡ ok wrapped
unfolding uboot_section
uboot_section-wrapped header_source payload wrapped before after h =
    let w = wrap_cv6xx_payload-IsWrapped header_source payload wrapped h in
    let (long, fits, form) = wrapped_form header_source payload wrapped h in
    let found =
      slice-field (length before) (length payload + 1024) before wrapped after refl
        (w.size ∙ omega arith) in
    let header = take 1024 header_source in
    let front = take 36 header in
    let field = le_bytes 4 (length payload) in
    let rest = drop 40 header in
    let header_size = length-take 1024 header_source in
    let front_size : length front ≡ 36 = omega (arith, length-take 36 header, header_size) in
    let shape : before ++ (wrapped ++ after)
        ≡ (before ++ front) ++ (field ++ ((rest ++ payload) ++ after)) =
      rw form (simp append_assoc) in
    let announced : unpack_le 4 (length before + 36) (before ++ (wrapped ++ after))
        ≡ ok (length payload) =
      rw shape (
        unpack_le-le_bytes 4 (length payload) (length before + 36) (before ++ front)
          ((rest ++ payload) ++ after) (omega (arith, length-append before front)) fits) in
    rw (announced) (ap ok found)

-- What a parser's result is of the file: the GSL, whose length the header has at 2084, in its full
-- size, the parameters behind it with their fields, and a U-Boot section that begins at the first
-- magic behind the parameters' start.
pub record IsParsed (parts : Cv6xxBootParts) : Type 0 where
  pub gsl_magic : unpack_le 4 2048 parts.file_data ≡ ok 0x4bb4d22d
  pub gsl_len : ℕ
  pub gsl_read : unpack_le 4 2084 parts.file_data ≡ ok gsl_len
  pub gsl_announced : parts.gsl_size ≡ gsl_len + 3072
  pub gsl_whole : parts.gsl_data ≡ take parts.gsl_size parts.file_data
  pub gsl_full : length parts.gsl_data ≡ parts.gsl_size
  pub start : parts.params_start ≡ parts.gsl_size + 1024
  pub params_magic : unpack_le 4 parts.params_start parts.file_data ≡ ok 0x4b87a52d
  pub offset_read : unpack_le 4 (parts.params_start + 32) parts.file_data ≡ ok parts.offset_32
  pub size_read : unpack_le 4 (parts.params_start + 36) parts.file_data ≡ ok parts.table_size
  pub count_read : unpack_le 4 (parts.params_start + 40) parts.file_data ≡ ok parts.table_count
  pub mapping : parts.board_mapping ≡ slice (parts.params_start + 300) 8 parts.file_data
  pub at : ℕ
  pub first_magic :
      Found (0x2d ∷ 0x1e ∷ 0xf0 ∷ 0x4b ∷ []) (drop parts.params_start parts.file_data) at
  pub uboot_len : ℕ
  pub uboot_read : unpack_le 4 (parts.params_start + at + 36) parts.file_data ≡ ok uboot_len
  pub uboot_whole :
      parts.uboot_data ≡ slice (parts.params_start + at) (uboot_len + 1024) parts.file_data

unpack_le-fits :
    (n at : ℕ) (bytes : List ℕ) (v : ℕ) → unpack_le n at bytes ≡ ok v → at + n ≤ length bytes
unfolding unpack_le
unpack_le-fits n at bytes v h = elim (Bool-cases (leb (at + n) (length bytes))) [
  | inl fits ↦ ground arith
  | inr past ↦ absurd (cc (rw past at h))
]

section_at :
    (file_data uboot_data : List ℕ) (start : ℕ)
    → uboot_section file_data (find_from uboot_magic_bytes start file_data) ≡ ok uboot_data
    → (at : ℕ) × Found uboot_magic_bytes (drop start file_data) at
      × ((uboot_len : ℕ) × (unpack_le 4 (start + at + 36) file_data ≡ ok uboot_len)
          × (uboot_data ≡ slice (start + at) (uboot_len + 1024) file_data))
unfolding uboot_section
section_at file_data uboot_data start h =
    elim (Option-cases (find_in uboot_magic_bytes (drop start file_data))) [
      | inl nowhere ↦ absurd (cc (rw (nowhere, uboot_section) at h))
      | inr (at, there) ↦
          let g : uboot_section file_data (some (start + at)) ≡ ok uboot_data = rw there at h in
          let (uboot_len, read, cut) =
            passed (unpack_le 4 (start + at + 36) file_data) _ uboot_data g in
          (
            at,
            find_in-Found uboot_magic_bytes (drop start file_data) at there,
            (uboot_len, read, sym (ok_injective cut)),
          )
    ]

finish :
    (file_data : List ℕ) (gsl_len offset_32 table_count table_size : ℕ) (uboot_data : List ℕ)
    (parts : Cv6xxBootParts)
    → unpack_le 4 2048 file_data ≡ ok cv6xx_gsl_magic
    → unpack_le 4 2084 file_data ≡ ok gsl_len
    → unpack_le 4 (gsl_len + 3072 + 1024) file_data ≡ ok cv6xx_ddr_params_magic
    → unpack_le 4 (gsl_len + 3072 + 1024 + 32) file_data ≡ ok offset_32
    → unpack_le 4 (gsl_len + 3072 + 1024 + 36) file_data ≡ ok table_size
    → unpack_le 4 (gsl_len + 3072 + 1024 + 40) file_data ≡ ok table_count
    → uboot_section file_data (find_from uboot_magic_bytes (gsl_len + 3072 + 1024) file_data)
      ≡ ok uboot_data
    → record {
      gsl_data = take (gsl_len + 3072) file_data;
      gsl_size = gsl_len + 3072;
      params_start = gsl_len + 3072 + 1024;
      offset_32 = offset_32;
      table_count = table_count;
      table_size = table_size;
      board_mapping = slice (gsl_len + 3072 + 1024 + 300) 8 file_data;
      uboot_data = uboot_data;
      file_data = file_data;
    }
      ≡ parts
    → (parts.file_data ≡ file_data) × IsParsed parts
finish file_data gsl_len offset_32 table_count table_size uboot_data parts gsl_magic gsl_read params
      offset_read size_read count_read section made =
    let (at, first, (uboot_len, read, cut)) =
      section_at file_data uboot_data (gsl_len + 3072 + 1024) section in
    let fits = unpack_le-fits 4 (gsl_len + 3072 + 1024) file_data cv6xx_ddr_params_magic params in
    rw (← made) (
      refl,
      record {
        gsl_magic = gsl_magic;
        gsl_len = gsl_len;
        gsl_read = gsl_read;
        gsl_announced = refl;
        gsl_whole = refl;
        gsl_full = omega (arith, length-take (gsl_len + 3072) file_data);
        start = refl;
        params_magic = params;
        offset_read = offset_read;
        size_read = size_read;
        count_read = count_read;
        mapping = refl;
        at = at;
        first_magic = first;
        uboot_len = uboot_len;
        uboot_read = read;
        uboot_whole = cut;
      },
    )

-- If `parse_cv6xx_boot` returns, the file has the two magics in their places, the GSL is the file's
-- front in the full size that the header gives at 2084, the parameters' three fields and the mapping
-- of the boards are those of the file, and U-Boot begins at the first magic behind the start of the
-- parameters, with the length that its header gives.
pub parse_cv6xx_boot-IsParsed :
    (file_data : List ℕ) (parts : Cv6xxBootParts)
    → parse_cv6xx_boot file_data ≡ ok parts
    → (parts.file_data ≡ file_data) × IsParsed parts
unfolding parse_cv6xx_boot
parse_cv6xx_boot-IsParsed file_data parts h =
    let (magic_gsl, r1, h1) = passed (unpack_le 4 2048 file_data) _ parts h in
    let (g1, r2, h2) = passed (guard (magic_gsl == cv6xx_gsl_magic) protocol_error) _ parts h1 in
    let (gsl_len, r3, h3) = passed (unpack_le 4 2084 file_data) _ parts h2 in
    let start = gsl_len + 3072 + 1024 in
    let (magic_params, r4, h4) = passed (unpack_le 4 start file_data) _ parts h3 in
    let (g2, r5, h5) =
      passed (guard (magic_params == cv6xx_ddr_params_magic) protocol_error) _ parts h4 in
    let (offset_32, r6, h6) = passed (unpack_le 4 (start + 32) file_data) _ parts h5 in
    let (table_size, r7, h7) = passed (unpack_le 4 (start + 36) file_data) _ parts h6 in
    let (table_count, r8, h8) = passed (unpack_le 4 (start + 40) file_data) _ parts h7 in
    let (uboot_data, r9, h9) =
      passed (uboot_section file_data (find_from uboot_magic_bytes start file_data)) _ parts h8 in
    let is_gsl : magic_gsl ≡ cv6xx_gsl_magic = ground (arith, r2) in
    let is_params : magic_params ≡ cv6xx_ddr_params_magic = ground (arith, r5) in
    finish file_data gsl_len offset_32 table_count table_size uboot_data parts (rw is_gsl at r1) r3
      (rw is_params at r4) r6 r7 r8 r9 (ok_injective h9)
