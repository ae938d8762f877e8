-- ===== src/Line.antt =====
-- The serial line as the boot protocols of src/defib/protocol use it: the `Transport` interface of
-- src/defib/transport/base.py, the clock, and the progress callback. The reads that are still to
-- come are a list, so a list is one course that the device and the clock can take; what the host
-- does is a log.
pub mod Writes
pub mod Outcomes
use openipc_defib.Prelude.{ℕ, List, [], ◌∷◌, ◌++◌, Bool, Option, none, some}
use openipc_defib.Prelude.Result.{Error, Result, ok, err}

-- What a read meets: bytes (at most as many as were asked for; none from a closed transport), a
-- TransportTimeout, a clock that is past the caller's deadline before the read is made, or
-- another exception.
pub data Read : Type 0 where
  received : List ℕ → Read
  timed_out : Read
  expired : Read
  failed : Read

-- `Stage` of src/defib/recovery/events.py.
pub data Stage : Type 0 where
  power_cycle handshake ddr_init spl uboot gsl ddr_table ddr_training head_area aux_area : Stage
  boot_image board_id usbplug flash_write flash_read complete : Stage

pub data Action : Type 0 where
  flush_input : Action
  flush_output : Action
  write : List ℕ → Action
  sleep : Action
  -- Bytes that were read, given back to the transport.
  unread : List ℕ → Action
  -- `_emit`, without the message.
  emit : Stage → ℕ → ℕ → Action

pub record Line : Type 0 where
  pub reads : List Read
  pub log : List Action

-- A coroutine on the line: it returns or raises, and what it did stays done.
abbrev pub Exec {ℓ} : Type ℓ → Type ℓ
Exec A = Line → Result A × Line

abbrev pub pure {ℓ} : {A : Type ℓ} → A → Exec A
pure a s = (ok a, s)

abbrev pub raise {ℓ} : {A : Type ℓ} → Error → Exec A
raise e s = (err e, s)

abbrev pub lift {ℓ} : {A : Type ℓ} → Result A → Exec A
lift r s = (r, s)

abbrev pub continue {ℓ κ} :
    {A : Type ℓ} {B : Type κ} → Result A → (A → Line → Result B × Line) → Line → Result B × Line
continue (ok a) f s = f a s
continue (err e) f s = (err e, s)

infixl 5 ◌>>=◌ ◌>>◌
abbrev pub ◌>>=◌ {ℓ κ} :
    {A : Type ℓ} {B : Type κ}
    → (Line → Result A × Line)
    → (A → Line → Result B × Line)
    → Line
    → Result B × Line
◌>>=◌ m f s = let (r, s') = m s in continue r f s'

abbrev pub ◌>>◌ {κ} :
    {B : Type κ}
    → (Line → Result (Unit {0}) × Line)
    → (Line → Result B × Line)
    → Line
    → Result B × Line
m >> k = m >>= λ _. k

abbrev pub perform : Action → Exec (Unit {0})
perform a s = (ok tt, record s { log = s.log ++ a ∷ [] })
