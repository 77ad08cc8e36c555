-- ===== src/Time/Timeval.antt =====
-- lib/Timeval.cc and include/Timeval.h: seconds and microseconds.
pub mod Laws
use meteo.Base.{ℕ, ◌+◌, ◌-◌, ◌*◌, ◌/◌, ◌%◌, Bool, not, if◌then◌else◌, ltb}
use meteo.Base.Int.{ℤ, pos, negsuc, ltb_ℤ, ◌+ℤ◌, ◌-ℤ◌}
use meteo.Base.Double.{Double}

pub record Timeval : Type 0 where
  pub tv_sec : ℤ
  pub tv_usec : ℤ

abbrev pub million : ℤ
million = pos 1000000

-- Timeval(int)
abbrev pub of_seconds : ℤ → Timeval
of_seconds l = record { tv_sec = l; tv_usec = pos 0 }

-- getTimekey; the remainder of C has the sign of the dividend.
whole_minutes : ℤ → ℤ
whole_minutes (pos n) = pos (n - n % 60)
whole_minutes (negsuc n) = pos 0 -ℤ pos (n + 1 - (n + 1) % 60)

unfoldable pub get_timekey : Timeval → ℤ
unfolding whole_minutes
get_timekey t = whole_minutes t.tv_sec

-- operator+(const Timeval&, const Timeval&)
unfoldable pub plus : Timeval → Timeval → Timeval
plus a b =
    let sec = a.tv_sec +ℤ b.tv_sec in
    let usec = a.tv_usec +ℤ b.tv_usec in
    if not (ltb_ℤ usec million)
    then record { tv_sec = sec +ℤ pos 1; tv_usec = usec -ℤ million }
    else record { tv_sec = sec; tv_usec = usec }

-- operator+(const Timeval&, int) and operator+=(int)
unfoldable pub plus_seconds : Timeval → ℤ → Timeval
plus_seconds a b = record { tv_sec = a.tv_sec +ℤ b; tv_usec = a.tv_usec }

module _ {D : Type 0} ⦃d : Double D⦄ where
  -- Timeval(double)
  unfoldable pub of_double : D → Timeval
  of_double r =
      let sec = d.trunc r in
      record { tv_sec = sec; tv_usec = d.trunc (d.mul (d.lit million 0) (d.sub r (d.of_int sec))) }

  -- getValue
  unfoldable pub get_value : Timeval → D
  get_value t = d.add (d.of_int t.tv_sec) (d.div (d.of_int t.tv_usec) (d.lit million 0))

  -- operator+=(double)
  unfoldable pub plus_double : Timeval → D → Timeval
  plus_double t b =
      let sec = t.tv_sec +ℤ d.trunc b in
      let usec = t.tv_usec +ℤ d.trunc (d.mul (d.lit million 0) (d.sub b (d.of_int (d.trunc b)))) in
      if not (ltb_ℤ usec million)
      then record { tv_sec = sec +ℤ pos 1; tv_usec = usec -ℤ million }
      else record { tv_sec = sec; tv_usec = usec }

module _ (D : Type 0) ⦃d : Double D⦄ where
  -- operator-
  unfoldable pub minus : Timeval → Timeval → Timeval
  unfolding of_double get_value
  minus a b = of_double (d.sub (get_value {D = D} a) (get_value {D = D} b))
