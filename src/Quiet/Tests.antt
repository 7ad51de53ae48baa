-- ===== src/Quiet/Tests.antt =====
-- A night's quiet hours (internal/scheduler/quiethours.go).
use kyvik.Base.{
  ℕ, ◌+◌, ◌-◌, ◌%◌, ◌<◌, ◌≡◌, ◌↔◌, true, refl, Option, some, ◌∷◌, ◌++◌, Bytes, TextOps, arith,
  codes,
}
use kyvik.Quiet.{minutes, in_range, is_in_quiet_hours}
use kyvik.Quiet.Range.{clock_text, in_range-clock, is_in_quiet_hours-clock}

abbrev plain : TextOps
plain = record { to_lower = λ s. s; trim_space = λ s. s }

abbrev half_past_eleven : Bytes → Option (ℕ × ℕ)
half_past_eleven zone = some (23, 30)

in_range-clock_example :
    (in_range 1410 1320 420 ≡ true) ↔ ((1410 + 1440 - 1320) % 1440 < (420 + 1440 - 1320) % 1440)
in_range-clock_example = in_range-clock 1410 1320 420 (omega arith) (omega arith) (omega arith)

is_in_quiet_hours-clock_example :
    (is_in_quiet_hours plain half_past_eleven
        (22, 30)
        (clock_text (22, 0) ++ b'-' ∷ clock_text (7, 0))
        (codes "CET")
      ≡ true)
    ↔ ((minutes (23, 30) + 1440 - minutes (22, 0)) % 1440
        < (minutes (7, 0) + 1440 - minutes (22, 0)) % 1440)
is_in_quiet_hours-clock_example =
    is_in_quiet_hours-clock plain half_past_eleven (22, 30) (codes "CET") 23 30 22 0 7 0
      (omega arith) (omega arith) (omega arith) (omega arith) (omega arith) (omega arith) refl refl
      refl
