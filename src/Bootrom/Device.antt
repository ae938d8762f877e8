-- ===== src/Bootrom/Device.antt =====
-- What a device makes of a whole transfer: the HEAD and TAIL frames are no data.
use openipc_defib.Prelude.{
  ℕ, ◌+◌, ◌≡◌, ◌≢◌, refl, sym, ap, ◌∙◌, arith, List, [], ◌∷◌, ◌++◌, append_assoc, append-nil,
  length, true, none, inl, inr,
}
use openipc_defib.Prelude.Result.{ok, Result-cases, Option-cases}
use openipc_defib.Line.{Stage, Line}
use openipc_defib.Line.Writes.{writes}
use openipc_defib.Slices.{slices, join-slices, slices-IsBlock}
use openipc_defib.Crc.{append_crc}
use openipc_defib.Struct.{pack_be}
use openipc_defib.Frames.{decode_data}
use openipc_defib.Standard.Upload.Delivery.{Delivered, again, last, done, data_frames}
use openipc_defib.Standard.Upload.Device.{
  taken, reassemble, Carried, reassemble_dropped, reassemble-Delivered, All-IsFilled,
}
use openipc_defib.Bootrom.{head_frame, tail_frame, send_data_to_bootrom}
use openipc_defib.Bootrom.Upload.{send_data_to_bootrom-Uploaded}

taken_other : (n b : ℕ) (bs : List ℕ) → b ≢ 0xda → taken n (b ∷ bs) ≡ none
unfolding taken decode_data
taken_other n b bs ne = ground arith

abbrev IsOther : List ℕ → Type 0
IsOther frame = (n : ℕ) → taken n frame ≡ none

head_frame-IsOther :
    (total address : ℕ) (head : List ℕ) → head_frame total address ≡ ok head → IsOther head
unfolding head_frame append_crc
head_frame-IsOther total address head h n = elim (Result-cases (pack_be 4 total)) [
  | inr (e, p) ↦ absurd (cc (rw (p, head_frame) at h))
  | inl (len, p) ↦ elim (Result-cases (pack_be 4 address)) [
    | inr (e, q) ↦ absurd (cc (rw (p, q, head_frame) at h))
    | inl (addr, q) ↦
        let made : append_crc ((0xfe ∷ 0x00 ∷ 0xff ∷ 0x01 ∷ []) ++ (len ++ addr)) ≡ head =
          cc (rw (p, q, head_frame) at h) in
        rw (← made) (taken_other n 0xfe _ (omega arith))
  ]
]

tail_frame-IsOther : (count : ℕ) → IsOther (tail_frame count)
unfolding tail_frame append_crc
tail_frame-IsOther count n = taken_other n 0xed _ (omega arith)

module _ (frame : List ℕ) (is_other : IsOther frame) where
  -- Copies of such a frame change nothing in front of the others, or behind them.
  in_front :
      (n : ℕ) (hs xs : List (List ℕ))
      → Delivered (frame ∷ []) hs
      → reassemble n (hs ++ xs) ≡ reassemble n xs
  in_front n hs xs (again {ws = us} d) =
      reassemble_dropped n frame (us ++ xs) (is_other n) ∙ in_front n us xs d
  in_front n hs xs (last done) = reassemble_dropped n frame xs (is_other n)

  alone : (n : ℕ) (hs : List (List ℕ)) → Delivered (frame ∷ []) hs → reassemble n hs ≡ []
  unfolding reassemble
  alone n hs d = ap (reassemble n) (sym (append-nil hs)) ∙ in_front n hs [] d

  behind :
      (n : ℕ) (xs hs : List (List ℕ))
      → Delivered (frame ∷ []) hs
      → reassemble n (xs ++ hs) ≡ reassemble n xs
  unfolding reassemble
  behind n [] hs d = alone n hs d
  behind n (x ∷ xs) hs d = elim (Option-cases (taken n x)) [
    | inl no_data ↦ rw (no_data, reassemble) (behind n xs hs d)
    | inr (payload, data_) ↦
        rw (data_, reassemble) (ap (λ (t : List ℕ). payload ++ t) (behind (n + 1) xs hs d))
  ]

-- If a transfer returns True, the device gets back exactly the data from what was written, the
-- frames that were sent again and the HEAD and TAIL frames among it.
pub send_data_to_bootrom-Carried :
    (bytes : List ℕ) (address : ℕ) (stage : Stage) (s : Line)
    → (send_data_to_bootrom bytes address stage s).0 ≡ ok true
    → Carried bytes s (send_data_to_bootrom bytes address stage s).1
send_data_to_bootrom-Carried bytes address stage s h =
    let u = send_data_to_bootrom-Uploaded bytes address stage s h in
    let b = u.body in
    let hs = u.head_sent.ws in
    let ds = b.blocks.ws in
    let ts = b.tail.ws in
    let chunks = slices 1024 bytes in
    let device = reassemble-Delivered (data_frames 1 chunks) ds b.blocks.delivered in
    (
      hs ++ (ds ++ ts),
      b.tail.written ∙ rw (b.blocks.written, u.head_sent.written, append_assoc, append_assoc) refl,
      in_front u.head (head_frame-IsOther (length bytes) address u.head u.announced) 1 hs (ds ++ ts)
            u.head_sent.delivered
          ∙ behind _ (tail_frame-IsOther (length chunks + 1)) 1 ds ts b.tail.delivered
          ∙ device.0 1 chunks (All-IsFilled 1024 chunks (slices-IsBlock 1024 bytes (omega arith)))
              refl
          ∙ join-slices 1024 bytes (omega arith),
    )

-- Steps that write nothing may stand before and behind.
pub Carried-from :
    (image : List ℕ) (s t s' s'' : Line)
    → writes t.log ≡ writes s.log
    → writes s''.log ≡ writes s'.log
    → Carried image t s'
    → Carried image s s''
Carried-from image s t s' s'' before after (ws, written, device) =
    (ws, after ∙ written ∙ ap (λ (x : List (List ℕ)). x ++ ws) before, device)
