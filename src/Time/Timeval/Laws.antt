-- ===== src/Time/Timeval/Laws.antt =====
-- Sums of times in lib/Timeval.cc.
use meteo.Base.{ℕ, ◌+◌, ◌*◌, ◌≡◌, arith}
use meteo.Base.Int.{pos, pos_part, neg_part, ◌+ℤ◌, ◌≤ℤ◌, +ℤ_parts, -ℤ_parts}
use meteo.Time.Timeval.{Timeval, million, plus}

-- The microseconds are in range.
pub record IsNormal (t : Timeval) : Type 0 where
  pub low : pos 0 ≤ℤ t.tv_usec
  pub high : t.tv_usec ≤ℤ pos 999999

-- The sum of two times whose microseconds are in range has its microseconds in range.
pub plus-IsNormal : (a b : Timeval) → IsNormal a → IsNormal b → IsNormal (plus a b)
unfolding plus
plus-IsNormal a b ha hb =
    ground (arith, +ℤ_parts a.tv_usec b.tv_usec, -ℤ_parts (a.tv_usec +ℤ b.tv_usec) million)

-- A time in microseconds, as the difference of two numbers.
abbrev pub micros_up : Timeval → ℕ
micros_up t = pos_part t.tv_sec * 1000000 + pos_part t.tv_usec

abbrev pub micros_down : Timeval → ℕ
micros_down t = neg_part t.tv_sec * 1000000 + neg_part t.tv_usec

-- The sum of two times is exact to the microsecond.
pub plus_exact :
    (a b : Timeval)
    → micros_up (plus a b) + micros_down a + micros_down b
      ≡ micros_down (plus a b) + micros_up a + micros_up b
unfolding plus
plus_exact a b = ground (
  arith,
  +ℤ_parts a.tv_usec b.tv_usec,
  -ℤ_parts (a.tv_usec +ℤ b.tv_usec) million,
  +ℤ_parts a.tv_sec b.tv_sec,
  +ℤ_parts (a.tv_sec +ℤ b.tv_sec) (pos 1),
)
