-- ===== src/Quiet.antt =====
-- Quiet hours of scheduled messages (internal/scheduler/quiethours.go). A text is a list of bytes;
-- `local_in` gives the hour and the minute in a time zone, or `none` if it cannot be loaded.
pub mod Range
mod Tests
use kyvik.Base.{
  ℕ, ◌+◌, ◌-◌, ◌*◌, ◌%◌, ◌^◌, Bool, true, false, ◌&&◌, ◌||◌, Option, none, some, List, [], ◌∷◌,
  ◌==◌, nat_eq, list_eq, Bytes, split_at, TextOps, ltb, leb, if◌then◌else◌,
}

infixl 5 ◌>>=◌
abbrev pub ◌>>=◌ : {A B : Type 0} → Option A → (A → Option B) → Option B
none >>= f = none
some a >>= f = f a

-- The digits' value as an `int`, which has 64 bits and wraps around; `none` is a byte that is no digit.
unfoldable pub digits : ℕ → Bytes → Option ℕ
digits n [] = some n
digits n (c ∷ s) =
    let rest = digits ((n * 10 + (c - b'0')) % 2 ^ 64) s in
    if ltb c b'0' || ltb b'9' c then none else rest

-- `none` is -1 or another negative number, which the caller rejects alike.
unfoldable pub atoi : Bytes → Option ℕ
unfolding digits
atoi s =
    if s == []
    then none
    else elim (digits 0 s) [ none ↦ none | some n ↦ if ltb n (2 ^ 63) then some n else none ]

unfoldable pub parse_hhmm : Bytes → Option (ℕ × ℕ)
unfolding atoi
parse_hhmm s = do
  (hours, minutes) ← split_at b':' s
  h ← atoi hours
  m ← atoi minutes
  if ltb 23 h || ltb 59 m then none else some (h, m)

-- `end` stands for the first minute after the range; a range may cross midnight.
unfoldable pub in_range : ℕ → ℕ → ℕ → Bool
in_range now start end =
    if leb start end then leb start now && ltb now end else leb start now || ltb now end

-- The two times of the text.
unfoldable pub parse_range : TextOps → Bytes → Option ((ℕ × ℕ) × (ℕ × ℕ))
unfolding parse_hhmm
parse_range text quiet_hours = do
  (from, until) ← split_at b'-' quiet_hours
  start ← parse_hhmm (text.trim_space from)
  end ← parse_hhmm (text.trim_space until)
  some (start, end)

abbrev pub minutes : ℕ × ℕ → ℕ
minutes (h, m) = h * 60 + m

unfoldable pub is_in_quiet_hours : TextOps → (Bytes → Option (ℕ × ℕ)) → ℕ × ℕ → Bytes → Bytes → Bool
unfolding parse_range in_range
is_in_quiet_hours text local_in utc quiet_hours timezone =
    let now : ℕ × ℕ = elim (local_in timezone) [ none ↦ utc | some t ↦ t ] in
    let within : Bool = elim (parse_range text quiet_hours) [
      | none ↦ false
      | some (start, end) ↦ in_range (minutes now) (minutes start) (minutes end)
    ] in
    if quiet_hours == [] then false else within
