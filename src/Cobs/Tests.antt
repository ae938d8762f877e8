-- ===== src/Cobs/Tests.antt =====
-- The COBS theorems at concrete bytes.
use openipc_defib.Prelude.{ℕ, ◌+◌, ◌/◌, ◌≡◌, refl, arith, List, [], ◌∷◌, All, length}
use openipc_defib.Prelude.Result.{ok, err, value_error}
use openipc_defib.Cobs.{encode, encode_loop, encode_byte, close_block, decode, decode_loop, copy}
use openipc_defib.Cobs.RoundTrip.{decode-encode}
use openipc_defib.Cobs.Bounds.{IsStuffed, encode-IsStuffed, length-encode_clean, Ends, decode-Ends}

abbrev sample : List ℕ
sample = 0x11 ∷ 0x00 ∷ 0x00 ∷ 0x22 ∷ []

abbrev clean_sample : List ℕ
clean_sample = 0x11 ∷ 0x22 ∷ []

encode-sample : encode sample ≡ 0x02 ∷ 0x11 ∷ 0x01 ∷ 0x02 ∷ 0x22 ∷ []
unfolding encode encode_loop encode_byte close_block
encode-sample = refl

decode_short : decode (0x05 ∷ 0x11 ∷ []) ≡ err value_error
unfolding decode decode_loop copy
decode_short = refl

decode-encode_example : decode (encode sample) ≡ ok sample
decode-encode_example = decode-encode sample

encode-IsStuffed_example : All IsStuffed (encode sample)
encode-IsStuffed_example = encode-IsStuffed sample (omega arith)

length-encode_clean_example :
    length (encode clean_sample) ≡ length clean_sample + 1 + length clean_sample / 254
length-encode_clean_example = length-encode_clean clean_sample (omega arith)

decode-Ends_example : Ends 2 (decode (0x05 ∷ 0x11 ∷ []))
decode-Ends_example = decode-Ends (0x05 ∷ 0x11 ∷ [])
