-- ===== src/Credentials/Clock.antt =====
-- The clock reading of credentials.py is exact integer arithmetic.
use teslatlas_home_assistant.Prelude.{◌+◌, ◌*◌, ◌≤◌, ◌<◌, ◌≡◌, refl, true, false, arith}
use teslatlas_home_assistant.Prelude.Int.{ℤ, pos, negsuc, pos_part, neg_part, fdiv}
use teslatlas_home_assistant.Errors.{Error, ok, err}
use teslatlas_home_assistant.Credentials.{epoch_milliseconds}

-- `ms` is the greatest number of whole milliseconds that is at most `us` microseconds.
pub record IsFloor (us ms : ℤ) : Type 0 where
  pub below : pos_part ms * 1000 + neg_part us ≤ pos_part us + neg_part ms * 1000
  pub above : pos_part us + neg_part ms * 1000 < pos_part ms * 1000 + 1000 + neg_part us

fdiv-IsFloor : (us : ℤ) → IsFloor us (fdiv us 1000)
unfolding fdiv
fdiv-IsFloor (pos n) = omega arith
fdiv-IsFloor (negsuc n) = omega arith

-- A reading with a UTC offset becomes its floor in whole milliseconds, also before the epoch; a
-- reading with none is refused as a contract error.
pub epoch_milliseconds-IsFloor :
    (us : ℤ)
    → ((ms : ℤ) × (epoch_milliseconds (record { aware = true; micros = us }) ≡ ok ms)
        × IsFloor us ms)
      × (epoch_milliseconds (record { aware = false; micros = us }) ≡ err Error.contract)
unfolding epoch_milliseconds
epoch_milliseconds-IsFloor us = ((fdiv us 1000, refl, fdiv-IsFloor us), refl)
