-- ===== src/Standard/Protocol.antt =====
-- src/defib/protocol/hisilicon_standard.py: the state of the protocol's object.
use openipc_defib.Prelude.{Bool, true, false, Option, none, some}
use openipc_defib.Standard.Upload.{Profile}

pub record HiSiliconStandard : Type 0 where
  pub profile : Option Profile
  pub continuous_ack : Bool

-- `__init__`.
abbrev pub new_protocol : HiSiliconStandard
new_protocol = record { profile = none; continuous_ack = false }

abbrev pub set_profile : HiSiliconStandard → Profile → HiSiliconStandard
set_profile p profile = record p { profile = some profile }

abbrev pub set_continuous_ack : HiSiliconStandard → Bool → HiSiliconStandard
set_continuous_ack p enabled = record p { continuous_ack = enabled }

abbrev pub has_prestep : Option Profile → Bool
has_prestep none = false
has_prestep (some profile) = elim profile.prestep_data [ none ↦ false | some prestep ↦ true ]

abbrev pub uses_frame_blast_handshake : HiSiliconStandard → Bool
uses_frame_blast_handshake p = has_prestep p.profile
