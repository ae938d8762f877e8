-- ===== src/Standard/Image.antt =====
-- src/defib/protocol/hisilicon_standard.py: how the firmware is prepared for the boot ROM. The SPL
-- ends where the compressed payload begins, and long runs of 0xFF bytes are zeroed.
pub mod Payload
pub mod Boundary
pub mod Runs
use openipc_defib.Prelude.{
  ℕ, zero, suc, ◌+◌, ◌-◌, ◌%◌, ◌^◌, min, List, [], ◌∷◌, ◌++◌, Bool, true, false, Option, none, some,
  ◌&&◌, ◌||◌,
}
use openipc_defib.Prelude.{length, get_or, set, slice, ltb, leb, ◌==◌, if◌then◌else◌}
use openipc_defib.Prelude.Result.{Result, ok, err, index_error, ◌>>=◌}
use openipc_defib.Struct.{le_value}

-- `data[i]`.
abbrev pub byte_at : List ℕ → ℕ → Result ℕ
byte_at bytes i = if ltb i (length bytes) then ok (get_or bytes i 0) else err index_error

-- VALID_LZMA_DICT, `{1 << n for n in range(16, 25)}`.
abbrev pub is_lzma_dict : ℕ → Bool
is_lzma_dict d =
    d == 2 ^ 16
    || (d == 2 ^ 17
        || (d == 2 ^ 18
            || (d == 2 ^ 19
                || (d == 2 ^ 20
                    || (d == 2 ^ 21 || (d == 2 ^ 22 || (d == 2 ^ 23 || d == 2 ^ 24)))))))

-- `i & ~0x3FF`.
abbrev pub page_of : ℕ → ℕ
page_of i = i - i % 1024

-- The body of the scan at index `i`: the page of an LZMA or gzip header.
unfoldable pub boundary_at : List ℕ → ℕ → Result (Option ℕ)
boundary_at firmware i = do
  b ← byte_at firmware i
  if b == 0x5d
      then ok
          (if is_lzma_dict (le_value (slice (i + 1) 4 firmware)) then some (page_of i) else none)
      else if b == 0x1f
      then (do
        c ← byte_at firmware (i + 1)
        if c == 0x8b
            then (do
              d ← byte_at firmware (i + 2)
              ok (if d == 0x08 then some (page_of i) else none))
            else ok none)
      else ok none

abbrev pub capped : Option ℕ → ℕ → ℕ
capped none detected = detected
capped (some limit) detected = if ltb limit detected then limit else detected

-- The rounds of `for i in range(0x4000, min(len(firmware), 0x10000))` that are left.
unfoldable pub detect_loop : ℕ → ℕ → List ℕ → ℕ → Option ℕ → Result ℕ
detect_loop zero i firmware profile_max sram_limit = ok profile_max
detect_loop (suc rounds) i firmware profile_max sram_limit = do
  found ← boundary_at firmware i
  elim found [
    | some detected ↦ ok (capped sram_limit detected)
    | none ↦ detect_loop rounds (i + 1) firmware profile_max sram_limit
  ]

unfoldable pub detect_spl_size : List ℕ → ℕ → Option ℕ → Result ℕ
detect_spl_size firmware profile_max sram_limit =
    detect_loop (min (length firmware) 0x10000 - 0x4000) 0x4000 firmware profile_max sram_limit

-- `firmware.count(b"\xff" * threshold) == 0` is false: some run has `threshold` bytes. `run` counts
-- the 0xFF bytes just before.
unfoldable pub has_run : ℕ → ℕ → List ℕ → Bool
has_run threshold run [] = leb threshold run
has_run threshold run (b ∷ bs) =
    leb threshold run || has_run threshold (if b == 0xff then run + 1 else 0) bs

-- `for j in range(start, start + count): out[j] = 0`.
unfoldable pub zero_range : ℕ → ℕ → List ℕ → List ℕ
zero_range zero start out = out
zero_range (suc count) start out = zero_range count (start + 1) (set out start 0)

-- `run_start` is `none` for the source's -1.
abbrev pub end_run : ℕ → ℕ → Option ℕ → List ℕ → List ℕ
end_run threshold i none out = out
end_run threshold i (some start) out =
    if leb threshold (i - start) then zero_range (i - start) start out else out

abbrev pub start_of : Option ℕ → ℕ → ℕ
start_of none i = i
start_of (some start) i = start

-- `for i, b in enumerate(out)` and the run that the end closes; writes only touch what was read.
unfoldable pub zero_loop : ℕ → ℕ → Option ℕ → List ℕ → List ℕ → List ℕ
zero_loop threshold i run_start [] out = end_run threshold (length out) run_start out
zero_loop threshold i run_start (b ∷ bs) out = elim (b == 0xff) [
  | true ↦ zero_loop threshold (i + 1) (some (start_of run_start i)) bs out
  | false ↦ zero_loop threshold (i + 1) none bs (end_run threshold i run_start out)
]

unfoldable pub zero_long_ff_runs : List ℕ → ℕ → List ℕ
zero_long_ff_runs firmware threshold =
    if has_run threshold 0 firmware then zero_loop threshold 0 none firmware firmware else firmware
