-- ===== src/Agent/Client/Updating.antt =====
-- `selfupdate` sends the whole firmware, as `_write_block` does a block.
use openipc_defib.Prelude.{ℕ, ◌*◌, ◌^◌, ◌≤◌, ◌<◌, ◌≡◌, refl, arith, List, [], ◌∷◌, ◌++◌, length}
use openipc_defib.Agent.Packet.RoundTrip.{packet_body}
use openipc_defib.Agent.Receive.Stream.{bytes_in, InTime}
use openipc_defib.Agent.Client.{Session, rsp_ack, ack_ok}
use openipc_defib.Agent.Client.Commands.{cmd_selfupdate, verdict_of, selfupdate}
use openipc_defib.Agent.Client.Writing.{Written, exchange-Written}

-- Firmware of at most 32 MiB, and an agent that agrees to the command and then to the checksum,
-- however the reads cut its answers: `selfupdate` returns True, it has sent the command with
-- address, length and CRC-32, and then the whole firmware in numbered packets of at most 512
-- bytes, and it leaves the rest of the stream.
selfupdate-Written :
    (load_addr : ℕ) (firmware rest : List ℕ) (s : Session)
    → load_addr < 2 ^ 32
    → length firmware ≤ 512 * 65536
    → InTime s.events
    → s.leftover ++ bytes_in s.events
      ≡ packet_body rsp_ack (ack_ok ∷ []) ++ (0 ∷ (packet_body rsp_ack (ack_ok ∷ []) ++ (0 ∷ rest)))
    → Written cmd_selfupdate load_addr firmware rest s (selfupdate firmware load_addr s)
unfolding selfupdate
selfupdate-Written load_addr firmware rest s =
    exchange-Written cmd_selfupdate verdict_of load_addr firmware rest s (omega arith) refl
