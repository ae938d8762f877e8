-- ===== src/Standard/Handshake.antt =====
-- src/defib/protocol/hisilicon_standard.py: the three ways into the boot ROM's download mode.
pub mod Markers
use openipc_defib.Prelude.{
  ℕ, zero, suc, ◌+◌, List, [], ◌∷◌, ◌++◌, replicate, Bool, true, false, ◌||◌, ◌&&◌, not, bytes_eq,
  ltb, leb, if◌then◌else◌, Option, none, some,
}
use openipc_defib.Prelude.Result.{Result, ok, err, index_error, transport_error}
use openipc_defib.Line.{
  Read, received, timed_out, expired, failed, Action, flush_input, write, emit, Line, Exec,
  handshake, perform, lift, ◌>>=◌, ◌>>◌,
}
use openipc_defib.Frames.{encode_head}
use openipc_defib.Standard.Send.{ack_byte}

abbrev pub bootmode_marker : List ℕ
bootmode_marker = 0x20 ∷ []

abbrev pub bootmode_count : ℕ
bootmode_count = 5

abbrev pub bootmode_ack : List ℕ
bootmode_ack = 0xaa ∷ []

abbrev pub burst : List ℕ
burst = replicate 64 0xaa

-- The local variables of `handshake`; `total_markers` only serves the debug log.
pub record Waiting : Type 0 where
  pub flooding : Bool
  pub ever_saw_data : Bool
  pub counter : ℕ

-- `if flooding: await transport.write(BURST)` at the head of a round.
abbrev pub flood : Waiting → List Action
flood w = if w.flooding then write burst ∷ [] else []

-- A timeout: the device went silent, so the flood begins.
unfoldable pub on_silence : Waiting → Waiting
on_silence w = if not w.flooding && w.ever_saw_data then record w { flooding = true } else w

-- A byte that is not zero.
unfoldable pub on_byte : Waiting → List ℕ → Waiting
on_byte w byte = record w {
  ever_saw_data = true;
  counter = if bytes_eq byte bootmode_marker then w.counter + 1 else 0;
}

-- What ends a handshake.
abbrev pub entered : Waiting → List Action
entered w =
    (if w.flooding then [] else write bootmode_ack ∷ []) ++ (flush_input ∷ emit handshake 1 1 ∷ [])

-- `while True`; `none` says that it still waits where the reads end. There is no deadline here, so
-- `expired` cannot come; a read that raises ends the handshake. A transport that is closed reads
-- no byte, and the log line for an unexpected byte takes its first.
unfoldable pub handshake_loop :
    Waiting → List Read → List Action → Option (Result (Unit {0})) × Line
handshake_loop w [] log = (none, record { reads = []; log = log ++ flood w })
handshake_loop w (failed ∷ reads) log =
    (some (err transport_error), record { reads = reads; log = log ++ flood w })
handshake_loop w (expired ∷ reads) log = handshake_loop w reads log
handshake_loop w (timed_out ∷ reads) log = handshake_loop (on_silence w) reads (log ++ flood w)
handshake_loop w (received [] ∷ reads) log =
    (some (err index_error), record { reads = reads; log = log ++ flood w })
handshake_loop w (received (b ∷ bs) ∷ reads) log = elim (bytes_eq (b ∷ bs) (0 ∷ [])) [
  | true ↦ handshake_loop w reads (log ++ flood w)
  | false ↦ elim (leb bootmode_count (on_byte w (b ∷ bs)).counter) [
    | true ↦ (
      some (ok tt),
      record { reads = reads; log = (log ++ flood w) ++ entered (on_byte w (b ∷ bs)) },
    )
    | false ↦ handshake_loop (on_byte w (b ∷ bs)) reads (log ++ flood w)
  ]
]

-- `handshake`, with the flag of `set_continuous_ack`.
unfoldable pub enter_boot_mode : Bool → Line → Option (Result (Unit {0})) × Line
enter_boot_mode continuous_ack s =
    handshake_loop (record { flooding = continuous_ack; ever_saw_data = false; counter = 0 })
      s.reads (s.log ++ emit handshake 0 1 ∷ [])

-- `_rehandshake`: the rounds of `while time.monotonic() < deadline`. A closed transport reads no
-- byte, and the log line takes its first.
unfoldable pub rehandshake_loop : ℕ → List Read → List Action → Result Bool × Line
rehandshake_loop marker_count [] log = (ok false, record { reads = []; log = log })
rehandshake_loop marker_count (expired ∷ reads) log =
    (ok false, record { reads = reads; log = log })
rehandshake_loop marker_count (failed ∷ reads) log =
    (err transport_error, record { reads = reads; log = log })
rehandshake_loop marker_count (timed_out ∷ reads) log = (
  ok true,
  record {
    reads = reads;
    log = log ++ (if ltb 0 marker_count then write bootmode_ack ∷ [] else []);
  },
)
rehandshake_loop marker_count (received [] ∷ reads) log =
    (err index_error, record { reads = reads; log = log })
rehandshake_loop marker_count (received (b ∷ bs) ∷ reads) log =
    elim (bytes_eq (b ∷ bs) bootmode_marker) [
      | true ↦ elim (leb bootmode_count (marker_count + 1)) [
        | true ↦ (ok true, record { reads = reads; log = log ++ write bootmode_ack ∷ [] })
        | false ↦ rehandshake_loop (marker_count + 1) reads log
      ]
      | false ↦ elim (bytes_eq (b ∷ bs) (0x0a ∷ []) || bytes_eq (b ∷ bs) (0x0d ∷ [])) [
        | true ↦ rehandshake_loop marker_count reads log
        | false ↦ (ok true, record { reads = reads; log = log })
      ]
    ]

unfoldable pub rehandshake : Exec Bool
rehandshake s = rehandshake_loop 0 s.reads s.log

-- The rounds of `_send_frame_for_start`: a blast, and a read that may bring the acknowledgement.
unfoldable pub blast_loop : List ℕ → List Read → List Action → Result Bool × Line
blast_loop blast [] log = (ok false, record { reads = []; log = log })
blast_loop blast (expired ∷ reads) log = (ok false, record { reads = reads; log = log })
blast_loop blast (failed ∷ reads) log =
    (err transport_error, record { reads = reads; log = log ++ write blast ∷ [] })
blast_loop blast (timed_out ∷ reads) log = blast_loop blast reads (log ++ write blast ∷ [])
blast_loop blast (received bytes ∷ reads) log = elim (bytes_eq bytes ack_byte) [
  | true ↦ (ok true, record { reads = reads; log = log ++ (write blast ∷ flush_input ∷ []) })
  | false ↦ blast_loop blast reads (log ++ write blast ∷ [])
]

unfoldable pub send_frame_for_start : ℕ → Exec Bool
send_frame_for_start ddr_step_address = do
  head_frame ← lift (encode_head (record { length = 64; address = ddr_step_address }))
  λ s. blast_loop (bootmode_ack ++ head_frame) s.reads s.log
