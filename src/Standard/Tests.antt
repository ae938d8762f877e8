-- ===== src/Standard/Tests.antt =====
-- The boot protocol's theorems at concrete images and reads.
use openipc_defib.Prelude.{
  ℕ, ◌+◌, ◌-◌, min, ◌≡◌, refl, arith, List, [], ◌∷◌, ◌++◌, true, false, none, some, replicate,
  length, get_or, length-append, length-replicate, bytes_eq, slice, zero, suc, ◌^◌,
}
use openipc_defib.Prelude.Result.{ok, err, index_error}
use openipc_defib.Line.{received, timed_out, Line, uboot}
use openipc_defib.Struct.{pack_be, le_value}
use openipc_defib.Slices.{slices, slices_from}
use openipc_defib.Frames.{chunk_data, encode_head}
use openipc_defib.Standard.Image.{
  has_run, zero_long_ff_runs, detect_spl_size, boundary_at, page_of, zero_loop, zero_range,
}
use openipc_defib.Standard.Image.Runs.{
  cleaned, SameBut, zero_long_ff_runs_lem, zero_long_ff_runs-cleaned,
}
use openipc_defib.Standard.Image.Boundary.{
  Detected, detect_found, detect_spl_size-Detected, detect_spl_size_raises,
}
use openipc_defib.Standard.Send.{await_ack, send_frame_with_retry, send_data, send_tail}
use openipc_defib.Standard.Send.Retry.{Tried, send_frame_with_retry-Tried}
use openipc_defib.Standard.Handshake.{
  enter_boot_mode, handshake_loop, on_byte, on_silence, rehandshake, rehandshake_loop,
}
use openipc_defib.Standard.Handshake.Markers.{Entered, enter_boot_mode-Entered}
use openipc_defib.Standard.Upload.{Profile, reenter, send_chunks, send_uboot}
use openipc_defib.Standard.Upload.Device.{Carried, send_chunks-Carried}
use openipc_defib.Standard.Upload.Flash.{Flashed, send_uboot-Flashed}

abbrev erased : List ℕ
erased = 1 ∷ 0xff ∷ 0xff ∷ 0xff ∷ 2 ∷ 0xff ∷ []

zeroed : zero_long_ff_runs erased 3 ≡ 1 ∷ 0 ∷ 0 ∷ 0 ∷ 2 ∷ 0xff ∷ []
unfolding zero_long_ff_runs has_run zero_loop zero_range
zeroed = refl

zero_long_ff_runs_lem_example :
    (has_run 3 0 (zero_long_ff_runs erased 3) ≡ false) × SameBut erased (zero_long_ff_runs erased 3)
zero_long_ff_runs_lem_example = zero_long_ff_runs_lem erased 3 (omega arith)

zero_long_ff_runs-cleaned_example : zero_long_ff_runs erased 3 ≡ cleaned 3 0 erased
zero_long_ff_runs-cleaned_example = zero_long_ff_runs-cleaned erased 3 (omega arith)

-- One attempt goes without an answer, the next is acknowledged.
abbrev answers : Line
answers = record { reads = received (0x20 ∷ []) ∷ timed_out ∷ received (0xaa ∷ []) ∷ []; log = [] }

send_frame_with_retry-Tried_example :
    Tried (1 ∷ 2 ∷ []) 16 answers (send_frame_with_retry (1 ∷ 2 ∷ []) 16 answers)
send_frame_with_retry-Tried_example = send_frame_with_retry-Tried (1 ∷ 2 ∷ []) 16 answers

abbrev markers : Line
markers = record {
  reads =
      received (0x20 ∷ [])
      ∷ received (0x20 ∷ [])
      ∷ timed_out
      ∷ received (0x20 ∷ [])
      ∷ received (0 ∷ [])
      ∷ received (0x20 ∷ [])
      ∷ received (0x20 ∷ [])
      ∷ received (0x41 ∷ [])
      ∷ [];
  log = [];
}

markers_seen : (enter_boot_mode false markers).0 ≡ some (ok tt)
unfolding enter_boot_mode handshake_loop on_byte on_silence bytes_eq
markers_seen = refl

enter_boot_mode-Entered_example : Entered 0 markers.reads (enter_boot_mode false markers).1.reads
enter_boot_mode-Entered_example = enter_boot_mode-Entered false markers markers_seen

abbrev image : List ℕ
image = 1 ∷ 2 ∷ 3 ∷ 4 ∷ 5 ∷ []

abbrev pieces : List (List ℕ)
pieces = (1 ∷ 2 ∷ []) ∷ (3 ∷ 4 ∷ []) ∷ (5 ∷ []) ∷ []

abbrev acks : Line
acks = record {
  reads =
      timed_out
      ∷ received (0xaa ∷ [])
      ∷ received (0xaa ∷ [])
      ∷ timed_out
      ∷ received (0xaa ∷ [])
      ∷ [];
  log = [];
}

image-pieces : chunk_data image 2 ≡ ok pieces
unfolding chunk_data slices slices_from
image-pieces = refl

pieces_sent : (send_chunks uboot 5 1 pieces acks).0 ≡ ok true
unfolding send_chunks send_data send_frame_with_retry await_ack bytes_eq
pieces_sent = refl

send_chunks-Carried_example : Carried image acks (send_chunks uboot 5 1 pieces acks).1
send_chunks-Carried_example =
    send_chunks-Carried uboot 5 image 2 pieces acks image-pieces pieces_sent

abbrev profile : Profile
profile = record {
  ddr_step_address = 0x4013000;
  prestep_data = none;
  ddr_step_data = replicate 64 7;
  prestep1_data = none;
  spl_address = 0x4010500;
  spl_max_size = 0x4f00;
  spl_sram_limit = none;
  uboot_address = 0x81000000;
}

-- The device is silent, then acknowledges HEAD, DATA and TAIL.
abbrev flashing : Line
flashing = record {
  reads = timed_out ∷ received (0xaa ∷ []) ∷ received (0xaa ∷ []) ∷ received (0xaa ∷ []) ∷ [];
  log = [];
}

flashed : (send_uboot image profile flashing).0 ≡ ok true
unfolding send_uboot reenter rehandshake rehandshake_loop encode_head pack_be zero_long_ff_runs
    has_run send_frame_with_retry await_ack bytes_eq chunk_data send_chunks slices slices_from
    send_data send_tail
flashed = refl

send_uboot-Flashed_example : Flashed image profile flashing (send_uboot image profile flashing).1
send_uboot-Flashed_example = send_uboot-Flashed image profile flashing flashed

-- Zero bytes and the first byte of a gzip header.
short_header : ℕ → List ℕ
short_header n = replicate n 0 ++ 0x1f ∷ []

short_header-length : (n : ℕ) → length (short_header n) ≡ n + 1
unfolding short_header
short_header-length n =
    let zeros = length-replicate {A = ℕ} n 0 in
    omega (arith, length-append {A = ℕ} (replicate n 0) (0x1f ∷ []), zeros)

at_end : (n : ℕ) → get_or {A = ℕ} (replicate n 0 ++ 0x1f ∷ []) n 0 ≡ 0x1f
at_end zero = refl
at_end (suc n) = at_end n

short_header-last : (n : ℕ) → get_or (short_header n) (length (short_header n) - 1) 0 ≡ 0x1f
unfolding short_header
short_header-last n =
    let last : length (short_header n) - 1 ≡ n = omega (arith, short_header-length n) in
    rw last (at_end n)

detect_spl_size_raises_example : detect_spl_size (short_header 0x4000) 0x4f00 none ≡ err index_error
detect_spl_size_raises_example =
    detect_spl_size_raises (short_header 0x4000) 0x4f00 none
      (omega (arith, short_header-length 0x4000)) (omega (arith, short_header-length 0x4000))
      (λ j lo hi. absurd (omega (arith, short_header-length 0x4000))) (short_header-last 0x4000)

-- 16 KiB, and an LZMA header behind them.
lzma_firmware : ℕ → List ℕ
lzma_firmware n = replicate n 0 ++ 0x5d ∷ 0 ∷ 0 ∷ 1 ∷ 0 ∷ []

lzma_firmware-length : (n : ℕ) → length (lzma_firmware n) ≡ n + 5
unfolding lzma_firmware
lzma_firmware-length n =
    let zeros = length-replicate {A = ℕ} n 0 in
    omega (arith, length-append {A = ℕ} (replicate n 0) (0x5d ∷ 0 ∷ 0 ∷ 1 ∷ 0 ∷ []), zeros)

at_header : (n : ℕ) → get_or {A = ℕ} (replicate n 0 ++ 0x5d ∷ 0 ∷ 0 ∷ 1 ∷ 0 ∷ []) n 0 ≡ 0x5d
at_header zero = refl
at_header (suc n) = at_header n

dict :
    (n : ℕ)
    → le_value (slice {A = ℕ} (n + 1) 4 (replicate n 0 ++ 0x5d ∷ 0 ∷ 0 ∷ 1 ∷ 0 ∷ [])) ≡ 2 ^ 16
unfolding le_value
dict n = rw (suc_form n) (dict' n)
  where
    suc_form : (n : ℕ) → n + 1 ≡ suc n
    suc_form n = omega arith

    dict' :
        (n : ℕ)
        → le_value (slice {A = ℕ} (suc n) 4 (replicate n 0 ++ 0x5d ∷ 0 ∷ 0 ∷ 1 ∷ 0 ∷ [])) ≡ 2 ^ 16
    dict' zero = refl
    dict' (suc n) = dict' n

lzma_firmware-boundary : (n : ℕ) → boundary_at (lzma_firmware n) n ≡ ok (some (page_of n))
unfolding lzma_firmware boundary_at
lzma_firmware-boundary n = ground (arith, at_header n, dict n, lzma_firmware-length n)

lzma_firmware-found : detect_spl_size (lzma_firmware 0x4000) 0x4f00 none ≡ ok 0x4000
unfolding detect_spl_size
lzma_firmware-found =
    let rounds : min (length (lzma_firmware 0x4000)) 0x10000 - 0x4000 ≡ suc 4 =
      omega (arith, lzma_firmware-length 0x4000) in
    rw rounds (
      detect_found 4 0x4000 (lzma_firmware 0x4000) 0x4f00 none 0x4000
        (lzma_firmware-boundary 0x4000))

detect_spl_size-Detected_example : Detected (lzma_firmware 0x4000) 0x4f00 none 0x4000
detect_spl_size-Detected_example =
    detect_spl_size-Detected (lzma_firmware 0x4000) 0x4f00 none 0x4000 lzma_firmware-found
