-- ===== src/Rockusb/Protocol/Transfers.antt =====
-- The pieces of a block range.
use openipc_defib.Prelude.{
  ℕ, zero, suc, ◌+◌, ◌-◌, min, ◌≤◌, ◌<◌, ◌≡◌, refl, arith, List, [], ◌∷◌, true, ltb, ◌⊎◌, inl, inr,
}
use openipc_defib.Prelude.Result.{ok, err, value_error}
use openipc_defib.Rockusb.Protocol.{split_loop, split_lba_transfers}

-- The pairs cover `total` sectors from `lba` on, without a gap, an overlap or an empty piece, and
-- none is larger than `max_sectors`.
pub data Covers (max_sectors : ℕ) : ℕ → ℕ → List (ℕ × ℕ) → Type 0 where
  covered : {lba : ℕ} → Covers max_sectors lba 0 []
  piece :
      {lba count total : ℕ} {rest : List (ℕ × ℕ)}
      → 0 < count
      → count ≤ max_sectors
      → Covers max_sectors (lba + count) total rest
      → Covers max_sectors lba (count + total) ((lba, count) ∷ rest)

split_loop-Covers :
    (fuel lba remaining max_sectors : ℕ)
    → 0 < max_sectors
    → remaining ≤ fuel
    → Covers max_sectors lba remaining (split_loop fuel lba remaining max_sectors)
unfolding split_loop
split_loop-Covers zero lba remaining max_sectors pos enough =
    let none_left : remaining ≡ 0 = omega arith in rw none_left covered
split_loop-Covers (suc fuel) lba zero max_sectors pos enough = covered
split_loop-Covers (suc fuel) lba (suc r) max_sectors pos enough =
    let count = min (suc r) max_sectors in
    let ih = split_loop-Covers fuel (lba + count) (suc r - count) max_sectors pos (omega arith) in
    let cons : Covers max_sectors lba (count + (suc r - count))
        ((lba, count) ∷ split_loop fuel (lba + count) (suc r - count) max_sectors) =
      piece (omega arith) (omega arith) ih in
    let whole : count + (suc r - count) ≡ suc r = omega arith in
    let more : ltb 0 (suc r) ≡ true = ground arith in rw more (rw whole at cons)

-- A block range is split into pieces that cover it, and a piece size of zero is refused.
pub split_lba_transfers-Covers :
    (start total max_sectors : ℕ)
    → ((pairs : List (ℕ × ℕ)) × (split_lba_transfers start total max_sectors ≡ ok pairs)
        × Covers max_sectors start total pairs)
      ⊎ ((split_lba_transfers start total max_sectors ≡ err value_error) × (max_sectors ≡ 0))
unfolding split_lba_transfers
split_lba_transfers-Covers start total zero = inr (refl, refl)
split_lba_transfers-Covers start total (suc n) = inl (
  split_loop total start total (suc n),
  ground arith,
  split_loop-Covers total start total (suc n) (omega arith) (omega arith),
)
