-- ===== src/Quiet/Range.antt =====
-- What a range of quiet hours covers (internal/scheduler/quiethours.go).
use kyvik.Base.{
  ℕ, ◌+◌, ◌-◌, ◌%◌, ◌/◌, ◌<◌, true, Option, some, [], ◌∷◌, ◌++◌, ◌≡◌, ◌↔◌, ◌⊎◌, inr, refl, nat_eq,
  list_eq, list_beq, Bytes, split_at, TextOps, arith,
}
use kyvik.Quiet.{digits, atoi, parse_hhmm, in_range, parse_range, minutes, is_in_quiet_hours}

-- A day has 1440 minutes. The time lies in the range exactly if it comes after the start, going round the
-- clock, sooner than the end does: so a range may cross midnight, and one that ends where it starts is
-- empty.
pub in_range-clock :
    (now start end : ℕ)
    → now < 1440
    → start < 1440
    → end < 1440
    → (in_range now start end ≡ true) ↔ ((now + 1440 - start) % 1440 < (end + 1440 - start) % 1440)
unfolding in_range
in_range-clock now start end n s e = ground (arith, n, s, e)

-- Two digits, as the source reads them.
abbrev pub two : ℕ → Bytes
two n = (b'0' + n / 10) ∷ (b'0' + n % 10) ∷ []

atoi-two : (n : ℕ) → n < 100 → atoi (two n) ≡ some n
unfolding atoi digits list_beq
atoi-two n h = ground (arith, h)

-- The text `hh:mm`.
abbrev pub clock_text : ℕ × ℕ → Bytes
clock_text (h, m) = two h ++ b':' ∷ two m

split_at-two :
    (c n : ℕ) (rest : Bytes)
    → n < 100
    → c < b'0' ⊎ (b'9' < c)
    → split_at c (two n ++ c ∷ rest) ≡ some (two n, rest)
unfolding split_at
split_at-two c n rest h l = ground (arith, h, l)

parse_hhmm-clock_text : (h m : ℕ) → h < 24 → m < 60 → parse_hhmm (clock_text (h, m)) ≡ some (h, m)
unfolding parse_hhmm
parse_hhmm-clock_text h m p q =
    rw
      (
        split_at-two b':' h (two m) (omega (arith, p)) (inr (omega arith)),
        atoi-two h (omega (arith, p)),
        atoi-two m (omega (arith, q)),
      )
      (ground (arith, p, q))

split_at-range :
    (h1 m1 h2 m2 : ℕ)
    → h1 < 24
    → m1 < 60
    → split_at b'-' (clock_text (h1, m1) ++ b'-' ∷ clock_text (h2, m2))
      ≡ some (clock_text (h1, m1), clock_text (h2, m2))
unfolding split_at
split_at-range h1 m1 h2 m2 a b = ground (arith, a, b)

parse_range-clock_text :
    (text : TextOps) (h1 m1 h2 m2 : ℕ)
    → h1 < 24
    → m1 < 60
    → h2 < 24
    → m2 < 60
    → text.trim_space (clock_text (h1, m1)) ≡ clock_text (h1, m1)
    → text.trim_space (clock_text (h2, m2)) ≡ clock_text (h2, m2)
    → parse_range text (clock_text (h1, m1) ++ b'-' ∷ clock_text (h2, m2))
      ≡ some ((h1, m1), (h2, m2))
unfolding parse_range
parse_range-clock_text text h1 m1 h2 m2 a b c d t u =
    rw
      (
        split_at-range h1 m1 h2 m2 a b,
        t,
        u,
        parse_hhmm-clock_text h1 m1 a b,
        parse_hhmm-clock_text h2 m2 c d,
      )
      refl

-- A text `hh:mm-hh:mm` of two times of day covers the time that the zone's clock shows exactly if that
-- comes sooner after the start, going round the clock, than the end does. The trimming leaves the two
-- times as they are.
pub is_in_quiet_hours-clock :
    (text : TextOps) (local_in : Bytes → Option (ℕ × ℕ)) (utc : ℕ × ℕ) (zone : Bytes)
    (h m h1 m1 h2 m2 : ℕ)
    → h < 24
    → m < 60
    → h1 < 24
    → m1 < 60
    → h2 < 24
    → m2 < 60
    → text.trim_space (clock_text (h1, m1)) ≡ clock_text (h1, m1)
    → text.trim_space (clock_text (h2, m2)) ≡ clock_text (h2, m2)
    → local_in zone ≡ some (h, m)
    → (is_in_quiet_hours text local_in utc (clock_text (h1, m1) ++ b'-' ∷ clock_text (h2, m2)) zone
        ≡ true)
      ↔ ((minutes (h, m) + 1440 - minutes (h1, m1)) % 1440
          < (minutes (h2, m2) + 1440 - minutes (h1, m1)) % 1440)
unfolding is_in_quiet_hours list_beq
is_in_quiet_hours-clock text local_in utc zone h m h1 m1 h2 m2 a b c d e f t u l =
    rw (parse_range-clock_text text h1 m1 h2 m2 c d e f t u, l)
      (in_range-clock (minutes (h, m)) (minutes (h1, m1)) (minutes (h2, m2)) (omega (arith, a, b))
        (omega (arith, c, d)) (omega (arith, e, f)))
