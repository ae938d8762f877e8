-- ===== src/Cobs.antt =====
-- src/defib/agent/cobs.py: consistent overhead byte stuffing, the framing of the flash agent's
-- packets. `encode` keeps its output, the index of the open code byte and the running code as the
-- source does; `decode` keeps what is left of the input in place of the index into it.
pub mod Encode
pub mod RoundTrip
pub mod Bounds
pub mod Tests
use openipc_defib.Prelude.{ℕ, zero, suc, ◌+◌, ◌-◌, List, [], ◌∷◌, ◌++◌, Bool, true, false, ◌&&◌}
use openipc_defib.Prelude.{length, set, ltb, ◌==◌, if◌then◌else◌}
use openipc_defib.Prelude.Result.{Result, ok, err, value_error, out_of_fuel, ◌>>=◌}

pub record Encoder : Type 0 where
  pub output : List ℕ
  pub code_idx : ℕ
  pub code : ℕ

abbrev pub initial : Encoder
initial = record { output = 0 ∷ []; code_idx = 0; code = 1 }

-- `output[code_idx] = code`, then a placeholder for the next code byte.
unfoldable pub close_block : Encoder → Encoder
close_block s = record {
  output = set s.output s.code_idx s.code ++ 0 ∷ [];
  code_idx = length (set s.output s.code_idx s.code);
  code = 1;
}

-- One round of `for byte in data`.
unfoldable pub encode_byte : Encoder → ℕ → Encoder
encode_byte s byte =
    if byte == 0
    then close_block s
    else if s.code + 1 == 0xff
    then close_block (record s { output = s.output ++ byte ∷ []; code = s.code + 1 })
    else record s { output = s.output ++ byte ∷ []; code = s.code + 1 }

unfoldable pub encode_loop : Encoder → List ℕ → List ℕ
encode_loop s [] = set s.output s.code_idx s.code
encode_loop s (byte ∷ data_left) = encode_loop (encode_byte s byte) data_left

unfoldable pub encode : List ℕ → List ℕ
encode bytes = encode_loop initial bytes

-- The inner `for _ in range(code - 1)`: the output and what is left of the input.
unfoldable pub copy : ℕ → List ℕ → List ℕ → Result (List ℕ × List ℕ)
copy zero output rest = ok (output, rest)
copy (suc n) output [] = err value_error
copy (suc n) output (b ∷ rest) = copy n (output ++ b ∷ []) rest

-- `idx < len(data)`.
abbrev pub has_more : List ℕ → Bool
has_more [] = false
has_more (b ∷ rest) = true

unfoldable pub decode_loop : ℕ → List ℕ → List ℕ → Result (List ℕ)
decode_loop fuel output [] = ok output
decode_loop zero output (code ∷ rest) = err out_of_fuel
decode_loop (suc fuel) output (code ∷ rest) = if code == 0 then err value_error else do
  (output', rest') ← copy (code - 1) output rest
  decode_loop fuel (if ltb code 0xff && has_more rest' then output' ++ 0 ∷ [] else output') rest'

-- Each round takes at least the code byte, so the input's length is fuel enough.
unfoldable pub decode : List ℕ → Result (List ℕ)
decode bytes = decode_loop (length bytes) [] bytes
