-- ===== src/Bootrom/Sent.antt =====
-- The frames of a whole transfer, with the length and the address in the first.
use openipc_defib.Prelude.{ℕ, ◌+◌, ◌≡◌, arith, List, [], ◌∷◌, ◌++◌, append-nil, length, true}
use openipc_defib.Prelude.Result.{ok}
use openipc_defib.Struct.{be_bytes, pack_be}
use openipc_defib.Line.{Line, Stage}
use openipc_defib.Line.Writes.{writes}
use openipc_defib.Slices.{slices}
use openipc_defib.Crc.{append_crc}
use openipc_defib.Standard.Upload.Delivery.{data_frames, Wrote, Wrote-trans, Wrote-none}
use openipc_defib.Standard.Upload.Device.{Carried}
use openipc_defib.Bootrom.{head_frame, tail_frame, send_data_to_bootrom}
use openipc_defib.Bootrom.Upload.{send_data_to_bootrom-Uploaded}
use openipc_defib.Bootrom.Device.{Carried-from, send_data_to_bootrom-Carried}

-- HEAD with length and address, the blocks under the numbers from 1 on, and TAIL.
abbrev pub transfer_frames : List ℕ → ℕ → List (List ℕ)
transfer_frames bytes address =
    append_crc
      ((0xfe ∷ 0x00 ∷ 0xff ∷ 0x01 ∷ []) ++ (be_bytes 4 (length bytes) ++ be_bytes 4 address))
    ∷ (data_frames 1 (slices 1024 bytes) ++ tail_frame (length (slices 1024 bytes) + 1) ∷ [])

-- Exactly these frames were written, each once or more, and a device makes the data of them.
pub record Sent (bytes : List ℕ) (address : ℕ) (s s' : Line) : Type 0 where
  pub frames : Wrote (transfer_frames bytes address) s s'
  pub carried : Carried bytes s s'

head_frame-form :
    (total address : ℕ) (head : List ℕ)
    → head_frame total address ≡ ok head
    → append_crc ((0xfe ∷ 0x00 ∷ 0xff ∷ 0x01 ∷ []) ++ (be_bytes 4 total ++ be_bytes 4 address))
      ≡ head
unfolding head_frame pack_be
head_frame-form total address head h = ground arith

pub send_data_to_bootrom-Sent :
    (bytes : List ℕ) (address : ℕ) (stage : Stage) (s : Line)
    → (send_data_to_bootrom bytes address stage s).0 ≡ ok true
    → Sent bytes address s (send_data_to_bootrom bytes address stage s).1
send_data_to_bootrom-Sent bytes address stage s h =
    let u = send_data_to_bootrom-Uploaded bytes address stage s h in
    let b = u.body in
    record {
      frames = rw (head_frame-form (length bytes) address u.head u.announced) (
          Wrote-trans s u.after_head _ u.head_sent
            (Wrote-trans u.after_head b.middle _ b.blocks b.tail));
      carried = send_data_to_bootrom-Carried bytes address stage s h;
    }

-- Steps that write nothing may stand before and behind.
pub Sent-from :
    (bytes : List ℕ) (address : ℕ) (s t s' s'' : Line)
    → writes t.log ≡ writes s.log
    → writes s''.log ≡ writes s'.log
    → Sent bytes address t s'
    → Sent bytes address s s''
Sent-from bytes address s t s' s'' before after sent =
    let whole =
      Wrote-trans s t s'' (Wrote-none s t before)
        (Wrote-trans t s' s'' sent.frames (Wrote-none s' s'' after)) in
    record {
      frames = rw append-nil at whole;
      carried = Carried-from bytes s t s' s'' before after sent.carried;
    }
