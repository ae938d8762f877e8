-- ===== src/Standard.antt =====
-- src/defib/protocol/hisilicon_standard.py: the boot protocol of the classic HiSilicon SoCs.
pub mod Image
pub mod Send
pub mod Handshake
pub mod Upload
pub mod Protocol
pub mod Tests
