-- ===== src/V500/Flash.antt =====
-- What a run that reports success has put on the wire.
use openipc_defib.Prelude.{
  ℕ, ◌≡◌, refl, sym, ap, ◌∙◌, List, [], ◌∷◌, ◌++◌, slice, take, true, append-nil,
}
use openipc_defib.Prelude.Result.{Result, ok}
use openipc_defib.Struct.{unpack_le}
use openipc_defib.Line.{Line, Stage, sleep, emit, head_area, aux_area, boot_image, complete, lift}
use openipc_defib.Line.Outcomes.{bind_ok, decided}
use openipc_defib.Line.Writes.{writes, writes-append}
use openipc_defib.Bootrom.{send_data_to_bootrom}
use openipc_defib.Bootrom.Sent.{Sent, Sent-from, send_data_to_bootrom-Sent}
use openipc_defib.V500.{
  boot_load_addr, V500Result, gave_up, head_area_not_sent, aux_area_not_sent, boot_image_not_sent,
  send_boot_image, send_aux_area, v500_send_firmware,
}

-- The three sections went out one after the other, each with its length and its address in the HEAD
-- frame, and nothing else.
pub record V500Flashed (firmware : List ℕ) (s s' : Line) : Type 0 where
  pub aux_len : ℕ
  pub announced : unpack_le 4 1024 firmware ≡ ok aux_len
  pub after_head : Line
  pub after_aux : Line
  pub head_area_sent : Sent (take 8192 firmware) 0 s after_head
  pub aux_area_sent : Sent (slice 8192 aux_len firmware) 8192 after_head after_aux
  pub image_sent : Sent firmware 0x41000000 after_aux s'

abbrev pub all_stages : List Stage
all_stages = head_area ∷ aux_area ∷ boot_image ∷ complete ∷ []

send_boot_image-Sent :
    (firmware : List ℕ) (s : Line) (r : V500Result)
    → (send_boot_image firmware s).0 ≡ ok r
    → r.success ≡ true
    → Sent firmware 0x41000000 s (send_boot_image firmware s).1
unfolding send_boot_image
send_boot_image-Sent firmware s r h g =
    let t : Line = record s { log = s.log ++ sleep ∷ [] } in
    let (sent, rest) =
      decided (λ (x : V500Result). x.success)
        (send_data_to_bootrom firmware boot_load_addr boot_image)
        (gave_up (head_area ∷ aux_area ∷ []) boot_image_not_sent) _ t r refl h g in
    let sent_to = send_data_to_bootrom firmware boot_load_addr boot_image t in
    rw rest (
      Sent-from firmware 0x41000000 s t sent_to.1
        (record sent_to.1 { log = sent_to.1.log ++ emit complete 1 1 ∷ [] })
        (writes-append s.log (sleep ∷ []) ∙ append-nil (writes s.log))
        (writes-append sent_to.1.log (emit complete 1 1 ∷ []) ∙ append-nil (writes sent_to.1.log))
        (send_data_to_bootrom-Sent firmware boot_load_addr boot_image t sent))

stages_done :
    (firmware : List ℕ) (s : Line) (r : V500Result)
    → (send_boot_image firmware s).0 ≡ ok r
    → r.success ≡ true
    → r.stages_completed ≡ all_stages
unfolding send_boot_image
stages_done firmware s r h g =
    let t : Line = record s { log = s.log ++ sleep ∷ [] } in
    let (sent, rest) =
      decided (λ (x : V500Result). x.success)
        (send_data_to_bootrom firmware boot_load_addr boot_image)
        (gave_up (head_area ∷ aux_area ∷ []) boot_image_not_sent) _ t r refl h g in
    let same = sym h ∙ ap (λ (x : Result V500Result × Line). x.0) rest in cc

-- If `send_firmware` reports success, then it names all its stages, and it has written exactly the
-- frames of three transfers in this order, each frame once or more: the first 8 KiB to address 0, the
-- AUX area of the length that stands at 1024 to address 8192, and the whole image to 0x41000000. A
-- device that takes each DATA frame once gets these data from them.
pub v500_send_firmware-V500Flashed :
    (firmware : List ℕ) (s : Line) (r : V500Result)
    → (v500_send_firmware firmware s).0 ≡ ok r
    → r.success ≡ true
    → V500Flashed firmware s (v500_send_firmware firmware s).1 × (r.stages_completed ≡ all_stages)
unfolding v500_send_firmware send_aux_area
v500_send_firmware-V500Flashed firmware s r h g =
    let success = λ (x : V500Result). x.success in
    let head = send_data_to_bootrom (take 8192 firmware) 0 head_area in
    let s₁ = (head s).1 in
    let (headed, past_head) =
      decided success head (gave_up [] head_area_not_sent) (send_aux_area firmware) s r refl h g in
    let h₁ = sym (ap (λ (x : Result V500Result × Line). x.0) past_head) ∙ h in
    let (aux_len, read, past_len) = bind_ok (lift (unpack_le 4 1024 firmware)) _ s₁ r h₁ in
    let h₂ = sym (ap (λ (x : Result V500Result × Line). x.0) past_len) ∙ h₁ in
    let aux = send_data_to_bootrom (slice 8192 aux_len firmware) 8192 aux_area in
    let s₂ = (aux s₁).1 in
    let (added, past_aux) =
      decided success aux (gave_up (head_area ∷ []) aux_area_not_sent) (send_boot_image firmware) s₁
        r refl h₂ g in
    let h₃ = sym (ap (λ (x : Result V500Result × Line). x.0) past_aux) ∙ h₂ in
    let whole = past_head ∙ past_len ∙ past_aux in
    (
      rw whole (record {
        aux_len = aux_len;
        announced = read;
        after_head = s₁;
        after_aux = s₂;
        head_area_sent = send_data_to_bootrom-Sent (take 8192 firmware) 0 head_area s headed;
        aux_area_sent =
            send_data_to_bootrom-Sent (slice 8192 aux_len firmware) 8192 aux_area s₁ added;
        image_sent = send_boot_image-Sent firmware s₂ r h₃ g;
      }),
      stages_done firmware s₂ r h₃ g,
    )
