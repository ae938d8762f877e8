-- ===== src/Search.antt =====
-- Python's `startswith`, `find` and `in` on byte strings.
use openipc_defib.Prelude.{
  ℕ, zero, suc, ◌+◌, ◌<◌, ◌≡◌, arith, List, [], ◌∷◌, drop, drop_all, ltb, Bool, true, false, ◌==◌,
  ◌&&◌, Option, none, some, inl, inr, Bool-cases,
}
use openipc_defib.Prelude.Result.{Option-cases}

unfoldable pub starts_with : List ℕ → List ℕ → Bool
starts_with [] bytes = true
starts_with (p ∷ ps) [] = false
starts_with (p ∷ ps) (b ∷ bs) = (p == b) && starts_with ps bs

abbrev pub one_further : Option ℕ → Option ℕ
one_further none = none
one_further (some n) = some (suc n)

-- `bytes.find(sub)`; `none` for -1.
unfoldable pub find_in : List ℕ → List ℕ → Option ℕ
find_in sub [] = elim (starts_with sub []) [ true ↦ some 0 | false ↦ none ]
find_in sub (b ∷ bs) = elim (starts_with sub (b ∷ bs)) [
  | true ↦ some 0
  | false ↦ one_further (find_in sub bs)
]

abbrev pub shifted : ℕ → Option ℕ → Option ℕ
shifted n none = none
shifted n (some k) = some (n + k)

-- `bytes.find(sub, start)` of a `sub` that is not empty.
abbrev pub find_from : List ℕ → ℕ → List ℕ → Option ℕ
find_from sub start bytes = shifted start (find_in sub (drop start bytes))

-- `sub in bytes`.
abbrev pub contains : List ℕ → List ℕ → Bool
contains sub bytes = elim (find_in sub bytes) [ none ↦ false | some n ↦ true ]

-- What was found stands there, and stands nowhere before.
pub record Found (sub bytes : List ℕ) (n : ℕ) : Type 0 where
  pub there : starts_with sub (drop n bytes) ≡ true
  pub before : (k : ℕ) → k < n → starts_with sub (drop k bytes) ≡ false

Found-zero : (sub bytes : List ℕ) → starts_with sub bytes ≡ true → Found sub bytes 0
Found-zero sub bytes e = record { there = e; before = λ k h. absurd (omega arith) }

Found-suc :
    (sub : List ℕ) (b : ℕ) (bs : List ℕ) (n : ℕ)
    → starts_with sub (b ∷ bs) ≡ false
    → Found sub bs n
    → Found sub (b ∷ bs) (suc n)
Found-suc sub b bs n e f = record { there = f.there; before = earlier }
  where
    earlier : (k : ℕ) → k < suc n → starts_with sub (drop k (b ∷ bs)) ≡ false
    earlier zero h = e
    earlier (suc k) h = f.before k (omega arith)

pub find_in-Found : (sub bytes : List ℕ) (n : ℕ) → find_in sub bytes ≡ some n → Found sub bytes n
unfolding find_in
find_in-Found sub [] n h = elim (Bool-cases (starts_with sub [])) [
  | inl e ↦ let z : 0 ≡ n = cc in rw (← z) (Found-zero sub [] e)
  | inr e ↦ absurd (cc)
]
find_in-Found sub (b ∷ bs) n h = elim (Bool-cases (starts_with sub (b ∷ bs))) [
  | inl e ↦ let z : 0 ≡ n = cc in rw (← z) (Found-zero sub (b ∷ bs) e)
  | inr e ↦ elim (Option-cases (find_in sub bs)) [
    | inl nowhere ↦ absurd (cc (rw (e, nowhere, find_in) at h))
    | inr (m, found) ↦
        let same : suc m ≡ n = cc (rw (e, found, find_in) at h) in
        rw (← same) (Found-suc sub b bs m e (find_in-Found sub bs m found))
  ]
]

-- What was not found stands nowhere.
pub find_in-none :
    (sub bytes : List ℕ) (n : ℕ) → find_in sub bytes ≡ none → starts_with sub (drop n bytes) ≡ false
unfolding find_in
find_in-none sub [] n h = elim (Bool-cases (starts_with sub [])) [
  | inl e ↦ absurd (cc)
  | inr e ↦ let gone : drop n [] ≡ [] = drop_all {A = ℕ} n [] (omega arith) in rw gone e
]
find_in-none sub (b ∷ bs) n h = elim (Bool-cases (starts_with sub (b ∷ bs))) [
  | inl e ↦ absurd (cc)
  | inr e ↦ elim (Option-cases (find_in sub bs)) [
    | inr (m, found) ↦ absurd (cc (rw (e, found, find_in) at h))
    | inl nowhere ↦ missing_behind sub b bs n e (λ k. find_in-none sub bs k nowhere)
  ]
]
  where
    missing_behind :
        (sub : List ℕ) (b : ℕ) (bs : List ℕ) (n : ℕ)
        → starts_with sub (b ∷ bs) ≡ false
        → ((k : ℕ) → starts_with sub (drop k bs) ≡ false)
        → starts_with sub (drop n (b ∷ bs)) ≡ false
    missing_behind sub b bs zero e rest = e
    missing_behind sub b bs (suc n) e rest = rest n

-- There is one first place.
pub Found-unique : (sub bytes : List ℕ) (n m : ℕ) → Found sub bytes n → Found sub bytes m → n ≡ m
Found-unique sub bytes n m f g = elim (Bool-cases (ltb n m)) [
  | inl below ↦ absurd (cc (f.there, g.before n (ground arith)))
  | inr above ↦ elim (Bool-cases (ltb m n)) [
    | inl below ↦ absurd (cc (g.there, f.before m (ground arith)))
    | inr same ↦ ground arith
  ]
]
