-- ===== src/Cv6xx/Query.antt =====
-- src/defib/protocol/hisilicon_cv6xx.py: the handshake and the question for the board's number.
use openipc_defib.Prelude.{
  ℕ, ◌+◌, List, [], ◌∷◌, ◌++◌, length, get_or, slice, drop, Bool, true, false, leb, ◌==◌, ◌&&◌,
  ◌||◌, if◌then◌else◌, Option, none, some,
}
use openipc_defib.Prelude.Result.{Result, ok, err, transport_error}
use openipc_defib.Struct.{pack_be, le_bytes, be_value}
use openipc_defib.Crc.{append_crc, append_crc_le}
use openipc_defib.Search.{find_in, contains}
use openipc_defib.Line.{
  Read, received, timed_out, expired, failed, Action, flush_input, write, sleep, unread, emit,
  handshake, Line, Exec, pure, perform, lift, ◌>>=◌, ◌>>◌,
}

-- What the object keeps; its third attribute is a waiting time.
pub record HiSiliconCv6xx : Type 0 where
  pub last_board : ℕ
  pub cpu_id : Option ℕ

abbrev pub new_cv6xx : HiSiliconCv6xx
new_cv6xx = record { last_board = 0; cpu_id = none }

abbrev pub cv6xx_handshake_magic : List ℕ
cv6xx_handshake_magic = 0xef ∷ 0xbe ∷ 0xad ∷ 0xde ∷ 0x12 ∷ 0x00 ∷ 0xf0 ∷ 0x0f ∷ []

abbrev pub cv6xx_boardid_magic : List ℕ
cv6xx_boardid_magic = 0xce ∷ 0x00 ∷ 0xff ∷ 0x01 ∷ []

-- Magic, baud rate and the serial format.
unfoldable pub handshake_frame : List ℕ
handshake_frame = append_crc_le (cv6xx_handshake_magic ++ (le_bytes 4 115200 ++ 8 ∷ 1 ∷ 0 ∷ 9 ∷ []))

abbrev pub uart_ddr : List ℕ
uart_ddr = b'u' ∷ b'a' ∷ b'r' ∷ b't' ∷ b' ' ∷ b'd' ∷ b'd' ∷ b'r' ∷ []

abbrev pub uart_flash : List ℕ
uart_flash = b'u' ∷ b'a' ∷ b'r' ∷ b't' ∷ b' ' ∷ b'f' ∷ b'l' ∷ b'a' ∷ b's' ∷ b'h' ∷ []

abbrev pub is_ready : List ℕ → Bool
is_ready buffer = contains uart_ddr buffer || contains uart_flash buffer

abbrev pub knock : List Action
knock = write handshake_frame ∷ sleep ∷ []

-- `while True`; `none` says that it still waits where the reads end. A round in which nothing waits
-- is a read of no bytes. There is no deadline here, so `expired` cannot come.
unfoldable pub cv6xx_handshake_loop :
    List ℕ → List Read → List Action → Option (Result (Unit {0})) × Line
cv6xx_handshake_loop buffer [] log = (none, record { reads = []; log = log ++ knock })
cv6xx_handshake_loop buffer (expired ∷ reads) log = cv6xx_handshake_loop buffer reads log
cv6xx_handshake_loop buffer (timed_out ∷ reads) log =
    cv6xx_handshake_loop buffer reads (log ++ knock)
cv6xx_handshake_loop buffer (failed ∷ reads) log =
    (some (err transport_error), record { reads = reads; log = log ++ knock })
cv6xx_handshake_loop buffer (received bytes ∷ reads) log = elim (is_ready (buffer ++ bytes)) [
  | true ↦ (
    some (ok tt),
    record {
      reads = reads;
      log = (log ++ knock) ++ (sleep ∷ flush_input ∷ emit handshake 1 1 ∷ []);
    },
  )
  | false ↦ cv6xx_handshake_loop (buffer ++ bytes) reads (log ++ knock)
]

unfoldable pub cv6xx_handshake : Line → Option (Result (Unit {0})) × Line
cv6xx_handshake s = cv6xx_handshake_loop [] s.reads (s.log ++ emit handshake 0 1 ∷ [])

-- The answer in the buffer: eleven bytes from the first 0xCE on, the last of them the
-- acknowledgement, and what is behind.
pub record BoardAnswer : Type 0 where
  pub cpu : ℕ
  pub board : ℕ
  pub remaining : List ℕ

unfoldable pub board_answer : List ℕ → Option BoardAnswer
board_answer buf = elim (find_in (0xce ∷ []) buf) [
  | none ↦ none
  | some idx ↦
      let resp = slice idx 11 buf in
      if leb (idx + 11) (length buf) && get_or buf (idx + 10) 0 == 0xaa
      then some (record {
        cpu = get_or resp 1 0;
        board = be_value (slice 4 4 resp);
        remaining = drop (idx + 11) buf;
      })
      else none
]

-- `if remaining: await transport.unread(...)`; a transport without it ignores the call.
abbrev pub give_back : List ℕ → List Action
give_back [] = []
give_back (b ∷ bs) = unread (b ∷ bs) ∷ []

-- The rounds of `while time.monotonic() - start < 2.0`, with a round in which nothing waits as a
-- read of no bytes.
unfoldable pub board_loop : List ℕ → List Read → List Action → Result (Option BoardAnswer) × Line
board_loop buf [] log = (ok none, record { reads = []; log = log })
board_loop buf (expired ∷ reads) log = (ok none, record { reads = reads; log = log })
board_loop buf (failed ∷ reads) log = (err transport_error, record { reads = reads; log = log })
board_loop buf (timed_out ∷ reads) log = board_loop buf reads (log ++ sleep ∷ [])
board_loop buf (received bytes ∷ reads) log = elim (board_answer (buf ++ bytes)) [
  | none ↦ board_loop (buf ++ bytes) reads (log ++ sleep ∷ [])
  | some a ↦ (ok (some a), record { reads = reads; log = log ++ give_back a.remaining })
]

-- What is kept of the answer, and the number that is returned.
abbrev pub noted : HiSiliconCv6xx → Option BoardAnswer → ℕ × HiSiliconCv6xx
noted p none = (0, p)
noted p (some a) = (a.board, record { last_board = a.board; cpu_id = some a.cpu })

-- `_get_board_id`, at the time `now`.
unfoldable pub get_board_id : ℕ → HiSiliconCv6xx → Exec (ℕ × HiSiliconCv6xx)
get_board_id now p = do
  t_bytes ← lift (pack_be 4 now)
  perform flush_input
  perform (write (append_crc (cv6xx_boardid_magic ++ (t_bytes ++ t_bytes))))
  answer ← λ s. board_loop [] s.reads s.log
  pure (noted p answer)
