-- ===== src/Frames/Chunks.antt =====
-- Cutting a firmware image into DATA payloads loses, repeats and reorders nothing.
use openipc_defib.Prelude.{ℕ, ◌+◌, ◌*◌, ◌≤◌, ◌<◌, ◌≡◌, List, length, All, arith}
use openipc_defib.Prelude.Result.{ok}
use openipc_defib.Slices.{slices, join, join-slices, IsBlock, slices-IsBlock, length-slices}
use openipc_defib.Frames.{chunk_data}

-- What a caller relies on of the chunks of a message.
pub record IsChunking (bytes : List ℕ) (chunk_size : ℕ) (chunks : List (List ℕ)) : Type 0 where
  pub whole : join chunks ≡ bytes
  pub fits : All (IsBlock chunk_size) chunks
  pub enough : length bytes ≤ length chunks * chunk_size
  pub needed : length chunks * chunk_size < length bytes + chunk_size

-- With a positive chunk size the chunks are those of the message.
pub chunk_data-IsChunking :
    (bytes : List ℕ) (chunk_size : ℕ) (chunks : List (List ℕ))
    → chunk_data bytes chunk_size ≡ ok chunks
    → IsChunking bytes chunk_size chunks
unfolding chunk_data
chunk_data-IsChunking bytes chunk_size chunks h =
    let pos : 0 < chunk_size = ground arith in
    let e : slices chunk_size bytes ≡ chunks = ground arith in
    let count = length-slices chunk_size bytes pos in
    rw (← e) (record {
      whole = join-slices chunk_size bytes pos;
      fits = slices-IsBlock chunk_size bytes pos;
      enough = count.0;
      needed = count.1;
    })
