-- ===== src/Line/Outcomes.antt =====
-- What a coroutine that returned True has done on the way.
use openipc_defib.Prelude.{◌≡◌, refl, ap, Bool, true, false}
use openipc_defib.Prelude.Result.{Result, ok, err}
use openipc_defib.Line.{Line, Exec, pure, lift, continue, ◌>>=◌}

-- `if not (await m): return False`, before the rest.
abbrev pub checked : Exec Bool → Exec Bool → Exec Bool
checked m k = m >>= λ b. elim b [ false ↦ pure false | true ↦ k ]

module _ (P : Result Bool × Line → Type 0) where
  checked_step :
      (k : Exec Bool) (r : Result Bool) (s : Line)
      → (r ≡ ok true → (k s).0 ≡ ok true → P (k s))
      → (continue r (λ b. elim b [ false ↦ pure false | true ↦ k ]) s).0 ≡ ok true
      → P (continue r (λ b. elim b [ false ↦ pure false | true ↦ k ]) s)
  checked_step k (ok true) s f h = f refl h
  checked_step k (ok false) s f h = cc
  checked_step k (err e) s f h = cc

  pub checked_lem :
      (m k : Exec Bool) (s : Line)
      → ((m s).0 ≡ ok true → (k (m s).1).0 ≡ ok true → P (k (m s).1))
      → (checked m k s).0 ≡ ok true
      → P (checked m k s)
  checked_lem m k s f h = checked_step k (m s).0 (m s).1 f h

  pub lifted_lem {ℓ} :
      {A : Type ℓ} (r : Result A) (k : A → Exec Bool) (s : Line)
      → ((a : A) → r ≡ ok a → (k a s).0 ≡ ok true → P (k a s))
      → ((lift r >>= k) s).0 ≡ ok true
      → P ((lift r >>= k) s)
  lifted_lem (ok a) k s f h = f a refl h
  lifted_lem (err e) k s f h = cc

module _ {ℓ κ} {A : Type ℓ} {B : Type κ} (m : Line → Result A × Line)
    (k : A → Line → Result B × Line) where
  bind_step :
      (r : Result A) (s' : Line) (b : B)
      → (continue r k s').0 ≡ ok b
      → (a : A) × (r ≡ ok a) × (continue r k s' ≡ k a s')
  bind_step (ok a) s' b h = (a, refl, refl)
  bind_step (err e) s' b h = absurd (cc)

  -- What returns has passed its first step.
  pub bind_ok :
      (s : Line) (b : B)
      → ((m >>= k) s).0 ≡ ok b
      → (a : A) × ((m s).0 ≡ ok a) × ((m >>= k) s ≡ k a (m s).1)
  bind_ok s b h = bind_step (m s).0 (m s).1 b h

module _ {ℓ} {R : Type ℓ} (succeeded : R → Bool) (m : Exec Bool) (failure : R)
    (k : Line → Result R × Line) where
  decided_step :
      (b : Result Bool) (s' : Line) (r : R)
      → succeeded failure ≡ false
      → (continue b (λ sent. elim sent [ false ↦ pure failure | true ↦ k ]) s').0 ≡ ok r
      → succeeded r ≡ true
      → (b ≡ ok true)
        × (continue b (λ sent. elim sent [ false ↦ pure failure | true ↦ k ]) s' ≡ k s')
  decided_step (err e) s' r f h g = absurd (cc)
  decided_step (ok false) s' r f h g =
      let same : failure ≡ r = cc in absurd (cc (ap succeeded same))
  decided_step (ok true) s' r f h g = (refl, refl)

  -- `if not await m: return failure`: what succeeds has not returned there.
  pub decided :
      (s : Line) (r : R)
      → succeeded failure ≡ false
      → ((m >>= λ sent. elim sent [ false ↦ pure failure | true ↦ k ]) s).0 ≡ ok r
      → succeeded r ≡ true
      → ((m s).0 ≡ ok true)
        × ((m >>= λ sent. elim sent [ false ↦ pure failure | true ↦ k ]) s ≡ k (m s).1)
  decided s r f h g = decided_step (m s).0 (m s).1 r f h g
