-- ===== src/Rockusb.antt =====
-- src/defib/rockusb: recovery of Rockchip boards over USB, as far as it is framing.
pub mod Codec
pub mod Loader
pub mod Maskrom
pub mod Protocol
pub mod Tests
