-- ===== src/Lib.antt =====
-- openipc-defib: recovery of bricked IP cameras over the boot ROM's serial protocol.
--
-- The host opens a serial line, waits for the boot ROM of the camera's SoC, uploads a DDR init
-- step, an SPL and U-Boot (or a flash agent) in acknowledged frames, and then talks to the agent
-- in COBS packets. The development models the Python host of src/defib:
--
--   src/defib/protocol/crc.py                 Crc, Crc/Table: `calc_crc`, `append_crc`, `verify_crc`
--   src/defib/protocol/frames.py              Frames: `encode_head` is HeadFrame.encode, and so on
--   src/defib/protocol/hisilicon_standard.py  Standard/Image (`_detect_spl_size`,
--     `_zero_long_ff_runs`), Standard/Send (`_send_frame_with_retry`, `_send_head`, ...),
--     Standard/Protocol (the object's state), Standard/Handshake (`handshake` is
--     `enter_boot_mode`, `_rehandshake`, `_send_frame_for_start`), Standard/Upload (`_send_ddr_step`, `_send_spl`, `_send_uboot`,
--     `send_firmware`)
--   src/defib/protocol/hisilicon_cv6xx.py     Bootrom (`_send_frame_wait_ack`, `_send_data_to_bootrom`),
--     Cv6xx/Boot (`parse_cv6xx_boot`, `wrap_cv6xx_payload`, `build_ddr_table`), Cv6xx/Query
--     (`handshake`, `_get_board_id`), Cv6xx/Firmware (`send_firmware`)
--   src/defib/protocol/hisilicon_v500.py      V500, over Bootrom: its transfer is the same text
--   src/defib/agent/cobs.py                   Cobs: `encode`, `decode`
--   src/defib/agent/protocol.py               Agent/Packet (`build_packet`, `parse_packet`),
--     Agent/Receive (`recv_packet` and its `_consume` over an asynchronous transport),
--     Agent/Receive/Response (`recv_response`)
--   src/defib/agent/client.py                 Agent/Client (`set_baud`) over the receive path of
--     Agent/Receive, Agent/Client/Transfer (`read_memory`, `_write_block`, `erase_flash`, `crc32` is
--     device_crc32, `verify`), Agent/Client/Commands (`selfupdate`, `get_info`, `reboot`, ...)
--   src/defib/rockusb/codec.py                Rockusb/Codec: `rk_crc16`, `rc4`
--   src/defib/rockusb/maskrom.py              Rockusb/Maskrom: `build_maskrom_chunks`
--   src/defib/rockusb/loader.py               Rockusb/Loader: `parse_loader`, `raw_blobs`; the codec
--     of names is the parameter `decode_name`
--   src/defib/rockusb/protocol.py             Rockusb/Protocol: `build_cbw`, `parse_csw`,
--     `split_lba_transfers`, `parse_flash_info`
--   src/defib/capture/format.py               Capture: `encode_capture` is CaptureFile.encode,
--     `decode_capture` is CaptureFile.decode; the UTF-8 codec is two parameters
--   src/defib/network/tftp_server.py          Tftp: `datagram_received` and the handlers it calls, on
--     the protocol object as a record; Tftp/Serving and Tftp/Delivery follow one peer's transfer
--   src/defib/recovery/events.py              Line (`Stage`), Standard/Upload (`RecoveryResult`)
--
-- Prelude holds the Boolean tests, the lists measured by native numbers, the bit operations and
-- the results; Struct the integers in byte strings that struct.pack and int.from_bytes give;
-- Slices the cutting of a byte string into blocks; Crc32 the checksum of zlib.crc32; Text and
-- Search what the source uses of Python's text methods, with letters in ASCII. The
-- remaining modules hold the proofs about the module they stand under.
--
-- Line models what the protocols see of a transport: a list of reads, each bytes, a timeout, a
-- deadline that has passed or an exception, and a log of what the host did. One such list is one
-- course that the device and the clock can take, so a theorem on every list is one on every
-- course. A coroutine is a function from the line to its result and the line after it. Where the
-- list ends, the loops that have a deadline end as if it had passed, and `handshake`, which has
-- none, answers that it still waits.
--
-- A byte is a number; theorems that need it below 256 say so. The checksum's register is not
-- masked in its loop, as in the source. Loops are recursions on their input, and those over an
-- index run on fuel: `decode_loop`, `decode_records` and `slices_from` on the length of the
-- input, `split_loop` on the sectors, `response_loop` on the bytes to come, `detect_loop` on the
-- length of its range, `send_rounds` and `stream_chunks` on the length of the data, `read_loop` on
-- the bytes to come; each round takes at least one of these. `send_frame_with_retry` runs on the
-- attempts that are left.
--
-- Not modelled: logging, the text of messages, the sizes of timeouts; the blocking receive path on
-- a raw serial port; what a CV6xx object keeps after an exception; the transports, the client's windowed
-- write, its streaming to flash and its scan, the USB
-- device of a Rockchip board, the network servers, power control, and the user interfaces. In what is modelled: the limit of Python's `int` on the digits
-- of a TFTP option, a negative total in `split_lba_transfers`, writes that fail (only reads do), and
-- that bytes given to `unread` are read again.
pub mod Prelude
pub mod Struct
pub mod Slices
pub mod Cobs
pub mod Crc
pub mod Frames
pub mod Crc32
pub mod Agent
pub mod Line
pub mod Standard
pub mod Capture
pub mod Search
pub mod Bootrom
pub mod Cv6xx
pub mod V500
pub mod Text
pub mod Tftp
pub mod Rockusb
