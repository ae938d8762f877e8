-- ===== src/Line/Writes.antt =====
-- The bytes that went out, in order.
use openipc_defib.Prelude.{ℕ, List, [], ◌∷◌, ◌++◌, ◌≡◌, refl, ap}
use openipc_defib.Line.{Action, write, flush_input, flush_output, sleep, unread, emit}

-- The frames that a log wrote.
abbrev pub writes : List Action → List (List ℕ)
writes [] = []
writes (write bytes ∷ log) = bytes ∷ writes log
writes (flush_input ∷ log) = writes log
writes (flush_output ∷ log) = writes log
writes (sleep ∷ log) = writes log
writes (unread bytes ∷ log) = writes log
writes (emit stage sent total ∷ log) = writes log

pub writes-append : (xs ys : List Action) → writes (xs ++ ys) ≡ writes xs ++ writes ys
writes-append [] ys = refl
writes-append (write bytes ∷ xs) ys = ap (λ (t : List (List ℕ)). bytes ∷ t) (writes-append xs ys)
writes-append (flush_input ∷ xs) ys = writes-append xs ys
writes-append (flush_output ∷ xs) ys = writes-append xs ys
writes-append (sleep ∷ xs) ys = writes-append xs ys
writes-append (unread bytes ∷ xs) ys = writes-append xs ys
writes-append (emit stage sent total ∷ xs) ys = writes-append xs ys
