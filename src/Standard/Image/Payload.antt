-- ===== src/Standard/Image/Payload.antt =====
-- What the scan of the firmware looks for, apart from how it looks: the header of an LZMA or gzip
-- stream.
use openipc_defib.Prelude.{
  ℕ, zero, suc, ◌+◌, ◌-◌, ◌%◌, ◌^◌, ◌≤◌, ◌<◌, ◌≡◌, refl, arith, List, length, get_or, slice, true,
  ◌==◌, ◌||◌, Bool, Bool-cases, inl, inr, ◌⊎◌, Option, none, some, min, ltb,
}
use openipc_defib.Prelude.Result.{ok}
use openipc_defib.Struct.{le_value}
use openipc_defib.Standard.Image.{is_lzma_dict, boundary_at, capped}

-- A stream begins at `i`: 0x5D and a dictionary of 2 ^ 16 to 2 ^ 24 bytes, or 0x1F, 0x8B and 8.
pub data IsPayload (firmware : List ℕ) (i : ℕ) : Type 0 where
  lzma :
      (k : ℕ)
      → 16 ≤ k
      → k ≤ 24
      → i < length firmware
      → get_or firmware i 0 ≡ 0x5d
      → le_value (slice (i + 1) 4 firmware) ≡ 2 ^ k
      → IsPayload firmware i
  gzip :
      i + 2 < length firmware
      → get_or firmware i 0 ≡ 0x1f
      → get_or firmware (i + 1) 0 ≡ 0x8b
      → get_or firmware (i + 2) 0 ≡ 0x08
      → IsPayload firmware i

IsPower : ℕ → Type 0
IsPower v = (k : ℕ) × (16 ≤ k) × (k ≤ 24) × (v ≡ 2 ^ k)

-- One test of the chain, and the others.
or_else :
    (v k : ℕ) (rest : Bool)
    → 16 ≤ k
    → k ≤ 24
    → (rest ≡ true → IsPower v)
    → (v == 2 ^ k || rest) ≡ true
    → IsPower v
unfolding IsPower
or_else v k rest lo hi later h = elim (Bool-cases (v == 2 ^ k)) [
  | inl here ↦ (k, lo, hi, ground arith)
  | inr other ↦ later (ground arith)
]

is_lzma_dict-IsPower : (v : ℕ) → is_lzma_dict v ≡ true → IsPower v
unfolding IsPower
is_lzma_dict-IsPower v = or_else v 16 _ (omega arith) (omega arith) (
    or_else v 17 _ (omega arith) (omega arith) (
      or_else v 18 _ (omega arith) (omega arith) (
        or_else v 19 _ (omega arith) (omega arith) (
          or_else v 20 _ (omega arith) (omega arith) (
            or_else v 21 _ (omega arith) (omega arith) (
              or_else v 22 _ (omega arith) (omega arith) (
                or_else v 23 _ (omega arith) (omega arith)
                  (λ h. (24, omega arith, omega arith, ground arith)))))))))

power-is_lzma_dict : (j : ℕ) → j ≤ 8 → is_lzma_dict (2 ^ (16 + j)) ≡ true
power-is_lzma_dict zero h = refl
power-is_lzma_dict (suc zero) h = refl
power-is_lzma_dict (suc (suc zero)) h = refl
power-is_lzma_dict (suc (suc (suc zero))) h = refl
power-is_lzma_dict (suc (suc (suc (suc zero)))) h = refl
power-is_lzma_dict (suc (suc (suc (suc (suc zero))))) h = refl
power-is_lzma_dict (suc (suc (suc (suc (suc (suc zero)))))) h = refl
power-is_lzma_dict (suc (suc (suc (suc (suc (suc (suc zero))))))) h = refl
power-is_lzma_dict (suc (suc (suc (suc (suc (suc (suc (suc zero)))))))) h = refl
power-is_lzma_dict (suc (suc (suc (suc (suc (suc (suc (suc (suc j))))))))) h = absurd (omega arith)

pub boundary_at-IsPayload :
    (firmware : List ℕ) (i d : ℕ) → boundary_at firmware i ≡ ok (some d) → IsPayload firmware i
unfolding boundary_at IsPower
boundary_at-IsPayload firmware i d h = elim (Bool-cases (get_or firmware i 0 == 0x5d)) [
  | inr other ↦ gzip (ground arith) (ground arith) (ground arith) (ground arith)
  | inl first ↦
      let v = le_value (slice (i + 1) 4 firmware) in
      elim (Bool-cases (is_lzma_dict v)) [
        | inr wrong ↦ absurd (ground (arith, wrong))
        | inl good ↦
            let (k, lo, hi, size) = is_lzma_dict-IsPower v good in
            lzma k lo hi (ground arith) (ground arith) size
      ]
]

pub boundary_at-none :
    (firmware : List ℕ) (i : ℕ) → boundary_at firmware i ≡ ok none → ¬ IsPayload firmware i
unfolding boundary_at
boundary_at-none firmware i h (gzip inside a b c) = ground arith
boundary_at-none firmware i h (lzma k lo hi inside a size) =
    let e : k ≡ 16 + (k - 16) = omega arith in
    let good : is_lzma_dict (2 ^ k) ≡ true = rw e (power-is_lzma_dict (k - 16) (omega arith)) in
    let found : is_lzma_dict (le_value (slice (i + 1) 4 firmware)) ≡ true = rw size good in
    let there : ltb i (length firmware) ≡ true = ground arith in cc (rw (there, a, found) at h)

-- What the scan's result is: the start of the page of the first stream in the range, or the SRAM's
-- limit if that is less; the profile's size if no stream is there.
pub record IsBoundary (firmware : List ℕ) (stop : ℕ) (sram_limit : Option ℕ) (r : ℕ) : Type 0 where
  pub i : ℕ
  pub low : 0x4000 ≤ i
  pub high : i < stop
  pub payload : IsPayload firmware i
  pub first : (j : ℕ) → 0x4000 ≤ j → j < i → ¬ IsPayload firmware j
  pub page : ℕ
  pub aligned : page % 1024 ≡ 0
  pub below : page ≤ i
  pub near : i < page + 1024
  pub limited :
      (sram_limit ≡ none) × (r ≡ page)
      ⊎ ((limit : ℕ) × (sram_limit ≡ some limit) × (r ≡ min page limit))

pub capped_lem :
    (sram_limit : Option ℕ) (page : ℕ)
    → (sram_limit ≡ none) × (capped sram_limit page ≡ page)
      ⊎ ((limit : ℕ) × (sram_limit ≡ some limit) × (capped sram_limit page ≡ min page limit))
capped_lem none page = inl (refl, refl)
capped_lem (some limit) page = inr (limit, refl, ground arith)
