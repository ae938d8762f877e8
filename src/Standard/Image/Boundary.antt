-- ===== src/Standard/Image/Boundary.antt =====
-- Where the scan for the compressed payload ends, and the input on which it raises.
use openipc_defib.Prelude.{ℕ, zero, suc, ◌+◌, ◌-◌, ◌≤◌, ◌<◌, ◌≡◌, refl, min, sym, ◌∙◌, arith, List}
use openipc_defib.Prelude.{Option, none, some, ◌⊎◌, inl, inr, ℕ-cases, length, get_or}
use openipc_defib.Prelude.Result.{Error, ok, err, index_error, Result-cases}
use native.Mathlib.Nat.{le_refl}
use openipc_defib.Standard.Image.Payload.{
  IsPayload, IsBoundary, boundary_at-IsPayload, boundary_at-none, capped_lem,
}
use openipc_defib.Standard.Image.{boundary_at, page_of, capped, detect_loop, detect_spl_size}

-- No payload header at the indices from `start` to `stop`.
abbrev pub NoneIn : List ℕ → ℕ → ℕ → Type 0
NoneIn firmware start stop = (j : ℕ) → start ≤ j → j < stop → boundary_at firmware j ≡ ok none

-- `i` is the first index from `start` on with a payload header.
pub record IsFirst (firmware : List ℕ) (start i : ℕ) : Type 0 where
  pub after : start ≤ i
  pub before_end : i < length firmware
  pub header : boundary_at firmware i ≡ ok (some (page_of i))
  pub none_before : NoneIn firmware start i

-- A header is reported at its page, and lies within the firmware.
boundary_at-page :
    (firmware : List ℕ) (i d : ℕ)
    → boundary_at firmware i ≡ ok (some d)
    → (d ≡ page_of i) × (i < length firmware)
unfolding boundary_at
boundary_at-page firmware i d h = ground arith

module _ (rounds i : ℕ) (firmware : List ℕ) (profile_max : ℕ) (sram_limit : Option ℕ) where
  pub detect_found :
      (d : ℕ)
      → boundary_at firmware i ≡ ok (some d)
      → detect_loop (suc rounds) i firmware profile_max sram_limit ≡ ok (capped sram_limit d)
  unfolding detect_loop
  detect_found d h = rw (h, detect_loop)

  detect_next :
      boundary_at firmware i ≡ ok none
      → detect_loop (suc rounds) i firmware profile_max sram_limit
        ≡ detect_loop rounds (i + 1) firmware profile_max sram_limit
  unfolding detect_loop
  detect_next h = rw (h, detect_loop)

  detect_raises :
      (e : Error)
      → boundary_at firmware i ≡ err e
      → detect_loop (suc rounds) i firmware profile_max sram_limit ≡ err e
  unfolding detect_loop
  detect_raises e h = rw (h, detect_loop)

NoneIn-step :
    (firmware : List ℕ) (i stop : ℕ)
    → boundary_at firmware i ≡ ok none
    → NoneIn firmware (i + 1) stop
    → NoneIn firmware i stop
NoneIn-step firmware i stop here rest j lo hi = elim (ℕ-cases j i) [
  | inl e ↦ rw e here
  | inr ne ↦ rest j (omega arith) hi
]

-- What a result of the rounds from `start` on is.
abbrev Scanned : List ℕ → ℕ → ℕ → ℕ → Option ℕ → ℕ → Type 0
Scanned firmware start stop profile_max sram_limit r =
    ((i : ℕ) × IsFirst firmware start i × (i < stop) × (r ≡ capped sram_limit (page_of i)))
    ⊎ (NoneIn firmware start stop × (r ≡ profile_max))

later :
    (rounds i : ℕ) (firmware : List ℕ) (profile_max : ℕ) (sram_limit : Option ℕ) (r : ℕ)
    → boundary_at firmware i ≡ ok none
    → Scanned firmware (i + 1) (i + 1 + rounds) profile_max sram_limit r
    → Scanned firmware i (i + suc rounds) profile_max sram_limit r
later rounds i firmware profile_max sram_limit r here (inl (j, first, lt, result)) =
    let found : IsFirst firmware i j = record {
      after = omega (arith, first.after);
      before_end = first.before_end;
      header = first.header;
      none_before = NoneIn-step firmware i j here first.none_before;
    } in
    inl (j, found, omega arith, result)
later rounds i firmware profile_max sram_limit r here (inr (missing, result)) =
    inr
      (NoneIn-step firmware i (i + suc rounds) here (λ j lo hi. missing j lo (omega arith)), result)

detect_loop-Scanned :
    (rounds i : ℕ) (firmware : List ℕ) (profile_max : ℕ) (sram_limit : Option ℕ) (r : ℕ)
    → detect_loop rounds i firmware profile_max sram_limit ≡ ok r
    → Scanned firmware i (i + rounds) profile_max sram_limit r
detect_loop-Scanned zero i firmware profile_max sram_limit r h =
    inr (λ j lo hi. absurd (omega arith), unfold detect_loop in cc)
detect_loop-Scanned (suc rounds) i firmware profile_max sram_limit r h =
    elim (Result-cases (boundary_at firmware i)) [
      | inr (e, raised) ↦ cc (detect_raises rounds i firmware profile_max sram_limit e raised)
      | inl (some d, found) ↦
          let page = boundary_at-page firmware i d found in
          let first : IsFirst firmware i i = record {
            after = le_refl i;
            before_end = page.1;
            header = rw page.0 at found;
            none_before = λ j lo hi. absurd (omega arith);
          } in
          let value : r ≡ capped sram_limit d =
            cc (detect_found rounds i firmware profile_max sram_limit d found) in
          let result : r ≡ capped sram_limit (page_of i) = rw page.0 at value in
          inl (i, first, omega arith, result)
      | inl (none, missing) ↦
          let step = detect_next rounds i firmware profile_max sram_limit missing in
          let ih =
            detect_loop-Scanned rounds (i + 1) firmware profile_max sram_limit r (sym step ∙ h) in
          later rounds i firmware profile_max sram_limit r missing ih
    ]

-- What a result of the scan says of the firmware.
abbrev pub Detected : List ℕ → ℕ → Option ℕ → ℕ → Type 0
Detected firmware profile_max sram_limit r =
    IsBoundary firmware (min (length firmware) 0x10000) sram_limit r
    ⊎ (((j : ℕ) → 0x4000 ≤ j → j < min (length firmware) 0x10000 → ¬ IsPayload firmware j)
        × (r ≡ profile_max))

Scanned-Detected :
    (firmware : List ℕ) (stop profile_max : ℕ) (sram_limit : Option ℕ) (r : ℕ)
    → stop ≡ 0x4000 + (min (length firmware) 0x10000 - 0x4000)
    → Scanned firmware 0x4000 stop profile_max sram_limit r
    → Detected firmware profile_max sram_limit r
Scanned-Detected firmware stop profile_max sram_limit r e (inl (i, found, high, value)) =
    inl (record {
      i = i;
      low = found.after;
      high = omega (arith, found.after);
      payload = boundary_at-IsPayload firmware i (page_of i) found.header;
      first = λ j lo hi. boundary_at-none firmware j (found.none_before j lo hi);
      page = page_of i;
      aligned = omega arith;
      below = omega arith;
      near = omega arith;
      limited = rw value (capped_lem sram_limit (page_of i));
    })
Scanned-Detected firmware stop profile_max sram_limit r e (inr (missing, value)) =
    inr (λ j lo hi. boundary_at-none firmware j (missing j lo (omega arith)), value)

-- If the scan returns, its result is the start of the 1024-byte page in which the first LZMA or gzip
-- header from 0x4000 on lies, or the SRAM limit if there is one that is less; where no header is
-- within the first 64 KiB it is the profile's size.
pub detect_spl_size-Detected :
    (firmware : List ℕ) (profile_max : ℕ) (sram_limit : Option ℕ) (r : ℕ)
    → detect_spl_size firmware profile_max sram_limit ≡ ok r
    → Detected firmware profile_max sram_limit r
unfolding detect_spl_size
detect_spl_size-Detected firmware profile_max sram_limit r h =
    Scanned-Detected firmware _ profile_max sram_limit r refl
      (detect_loop-Scanned _ 0x4000 firmware profile_max sram_limit r h)

-- A firmware that ends with the first byte of a gzip header makes the scan look past its end.
ends_raise :
    (firmware : List ℕ) (i : ℕ)
    → i + 1 ≡ length firmware
    → get_or firmware i 0 ≡ 0x1f
    → boundary_at firmware i ≡ err index_error
unfolding boundary_at
ends_raise firmware i last magic = ground arith

detect_loop-raises :
    (rounds i : ℕ) (firmware : List ℕ) (profile_max : ℕ) (sram_limit : Option ℕ)
    → i + suc rounds ≡ length firmware
    → NoneIn firmware i (length firmware - 1)
    → get_or firmware (length firmware - 1) 0 ≡ 0x1f
    → detect_loop (suc rounds) i firmware profile_max sram_limit ≡ err index_error
detect_loop-raises zero i firmware profile_max sram_limit size none_found last =
    let here : length firmware - 1 ≡ i = omega arith in
    detect_raises zero i firmware profile_max sram_limit index_error
      (ends_raise firmware i (omega arith) (rw here at last))
detect_loop-raises (suc rounds) i firmware profile_max sram_limit size none_found last =
    detect_next (suc rounds) i firmware profile_max sram_limit
      (none_found i (le_refl i) (omega arith))
    ∙ detect_loop-raises rounds (i + 1) firmware profile_max sram_limit (omega arith)
        (λ j lo hi. none_found j (omega arith) hi) last

-- The scan raises an IndexError on every firmware of 16 to 64 KiB that has no payload header and
-- whose last byte is 0x1F.
pub detect_spl_size_raises :
    (firmware : List ℕ) (profile_max : ℕ) (sram_limit : Option ℕ)
    → 0x4000 < length firmware
    → length firmware ≤ 0x10000
    → NoneIn firmware 0x4000 (length firmware - 1)
    → get_or firmware (length firmware - 1) 0 ≡ 0x1f
    → detect_spl_size firmware profile_max sram_limit ≡ err index_error
unfolding detect_spl_size
detect_spl_size_raises firmware profile_max sram_limit lo hi none_found last =
    let rounds : min (length firmware) 0x10000 - 0x4000 ≡ suc (length firmware - 0x4001) =
      omega arith in
    rw rounds (
      detect_loop-raises (length firmware - 0x4001) 0x4000 firmware profile_max sram_limit
        (omega arith) none_found last)
