-- ===== src/Cv6xx.antt =====
-- src/defib/protocol/hisilicon_cv6xx.py: the boot protocol of the Hi3516CV6xx series. The transfer
-- of a section is Bootrom's.
pub mod Boot
pub mod Query
pub mod Firmware
pub mod Told
pub mod Asked
pub mod Flash
pub mod Answered
pub mod Cut
mod Tests
