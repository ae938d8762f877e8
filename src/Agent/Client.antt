-- ===== src/Agent/Client.antt =====
-- src/defib/agent/client.py: `FlashAgentClient` over an asynchronous transport, on which
-- `_clear_rx_buffers` clears nothing.
pub mod Transfer
pub mod Reading
pub mod Memory
pub mod Writing
pub mod Commands
mod Updating
mod Tests
use openipc_defib.Prelude.{
  ℕ, zero, suc, ◌+◌, ◌-◌, ◌*◌, ◌/◌, ◌%◌, min, List, [], ◌∷◌, ◌++◌, length, take, drop, slice, Bool,
  true, false, not, ◌&&◌, ◌||◌, ltb, leb, ◌==◌, if◌then◌else◌, Option, none, some,
}
use openipc_defib.Prelude.Bits.{u16, u32}
use openipc_defib.Prelude.Result.{Error, Result, ok, err, runtime_error, index_error, out_of_fuel}
use openipc_defib.Struct.{le_value, le_bytes, pack_le}
use openipc_defib.Crc32.{crc32}
use openipc_defib.Agent.Packet.{Packet, build_packet, rsp_ready}
use openipc_defib.Agent.Receive.{Event, recv_packet}
use openipc_defib.Agent.Receive.Stream.{bytes_in}
use openipc_defib.Agent.Receive.Response.{recv_response}

abbrev pub cmd_info : ℕ
cmd_info = 0x01

abbrev pub cmd_read : ℕ
cmd_read = 0x02

abbrev pub cmd_write : ℕ
cmd_write = 0x03

abbrev pub cmd_erase : ℕ
cmd_erase = 0x04

abbrev pub cmd_crc32 : ℕ
cmd_crc32 = 0x05

abbrev pub cmd_set_baud : ℕ
cmd_set_baud = 0x08

abbrev pub rsp_info : ℕ
rsp_info = 0x81

abbrev pub rsp_data : ℕ
rsp_data = 0x82

abbrev pub rsp_ack : ℕ
rsp_ack = 0x83

abbrev pub rsp_crc32 : ℕ
rsp_crc32 = 0x84

abbrev pub ack_ok : ℕ
ack_ok = 0

abbrev pub default_fast_baud : ℕ
default_fast_baud = 921600

abbrev pub fallback_baud : ℕ
fallback_baud = 115200

-- The client with its transport: the leftover buffer, what is still to come, what was written, the
-- rate of the host's side and whether the transport can change it, what INFO told, and what the
-- callback was told.
pub record Session : Type 0 where
  pub leftover : List ℕ
  pub events : List Event
  pub sent : List (List ℕ)
  pub host_baud : ℕ
  pub has_baud_control : Bool
  pub current_baud : ℕ
  pub sector_size : ℕ
  pub flash_size : ℕ
  pub ram_base : ℕ
  pub flash_mem : ℕ
  pub reports : List (ℕ × ℕ)

-- A coroutine on the session: it returns or raises, and what it did stays done.
abbrev pub Talk {ℓ} : Type ℓ → Type ℓ
Talk A = Session → Result A × Session

abbrev pub returning {ℓ} : {A : Type ℓ} → A → Talk A
returning a s = (ok a, s)

abbrev pub after {ℓ κ} :
    {A : Type ℓ} {B : Type κ}
    → Result A
    → (A → Session → Result B × Session)
    → Session
    → Result B × Session
after (ok a) f s = f a s
after (err e) f s = (err e, s)

infixl 5 ◌>>=◌ ◌>>◌
abbrev pub ◌>>=◌ {ℓ κ} :
    {A : Type ℓ} {B : Type κ}
    → (Session → Result A × Session)
    → (A → Session → Result B × Session)
    → Session
    → Result B × Session
◌>>=◌ m f s = let (r, s') = m s in after r f s'

abbrev pub ◌>>◌ {κ} :
    {B : Type κ}
    → (Session → Result (Unit {0}) × Session)
    → (Session → Result B × Session)
    → Session
    → Result B × Session
m >> k = m >>= λ _. k

abbrev pub given {ℓ} : {A : Type ℓ} → Result A → Talk A
given r s = (r, s)

unfoldable pub send_packet : ℕ → List ℕ → Talk (Unit {0})
send_packet cmd payload = do
  packet ← given (build_packet cmd payload)
  λ s. (ok tt, record s { sent = s.sent ++ packet ∷ [] })

unfoldable pub packet_in : Talk Packet
packet_in s =
    let r = recv_packet s.leftover s.events in
    (r.result, record s { leftover = r.leftover; events = r.events })

unfoldable pub response_in : Talk Packet
response_in s =
    let r = recv_response s.leftover s.events in
    (r.result, record s { leftover = r.leftover; events = r.events })

-- `cmd != RSP_ACK or resp[0] != ACK_OK`, whose second part raises on an empty answer.
abbrev pub refused_by : Packet → Result Bool
refused_by (cmd, []) = if cmd == rsp_ack then err index_error else ok true
refused_by (cmd, b ∷ bs) = ok (not (cmd == rsp_ack) || not (b == ack_ok))

-- `if cmd != RSP_ACK or resp[0] != ACK_OK: return False`, before the rest.
abbrev pub unless_refused : Packet → Talk Bool → Talk Bool
unless_refused p k = given (refused_by p) >>= λ bad. elim bad [ true ↦ returning false | false ↦ k ]

-- `cmd == RSP_ACK and resp[0] == ACK_OK`.
abbrev pub accepted : Packet → Result Bool
accepted (cmd, []) = if cmd == rsp_ack then err index_error else ok false
accepted (cmd, b ∷ bs) = ok (cmd == rsp_ack && b == ack_ok)

-- `try` a step that may fail: whatever it raises counts as False.
abbrev pub attempted : Talk Bool → Talk Bool
attempted m s = let (r, s') = m s in elim r [ ok b ↦ (ok b, s') | err e ↦ (ok false, s') ]

-- What follows the agent's consent: the host's side switches, and INFO must be answered. The events
-- that are to come are those that the transport has after its input was flushed.
unfoldable pub confirm_baud : ℕ → Talk Bool
confirm_baud baud = do
  send_packet cmd_info []
  answer ← response_in
  if answer.0 == rsp_info
      then (λ s. (ok true, record s { current_baud = baud }))
      else returning false

unfoldable pub switch_host : ℕ → Talk Bool
switch_host baud s =
    let old = s.current_baud in
    let (r, s') = attempted (confirm_baud baud) (record s { host_baud = baud; leftover = [] }) in
    elim r [
      | err e ↦ (err e, s')
      | ok confirmed ↦ elim confirmed [
        | true ↦ (ok true, s')
        | false ↦ (ok false, record s' { host_baud = old })
      ]
    ]

-- A transport that cannot switch: the agent is asked to go back, whatever comes of it.
unfoldable pub send_back : Talk Bool
send_back = attempted (send_packet cmd_set_baud (le_bytes 4 fallback_baud) >> returning false)

unfoldable pub set_baud : ℕ → Talk Bool
set_baud baud = do
  payload ← given (pack_le 4 baud)
  send_packet cmd_set_baud payload
  answer ← response_in
  unless_refused answer (λ s. if s.has_baud_control then switch_host baud s else send_back s)

unfoldable pub switch_baud : ℕ → Talk Bool
switch_baud target s =
    if s.current_baud == target
    then (ok true, s)
    else (do
      switched ← set_baud target
      λ t. (ok switched, if switched then record t { current_baud = target } else t))
        s

-- `if fast and size > 4096: await self._switch_baud(DEFAULT_FAST_BAUD)`.
unfoldable pub hurry : Bool → ℕ → Talk (Unit {0})
hurry fast size =
    if fast && ltb 4096 size
    then (switch_baud default_fast_baud >>= λ _. returning tt)
    else returning tt
