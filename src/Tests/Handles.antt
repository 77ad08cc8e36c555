-- ===== src/Tests/Handles.antt =====
-- Values behind handles, and labels of times.
use meteo.Base.{
  ◌==◌, ◌+◌, ◌/◌, ◌%◌, ℕ, ◌≡◌, refl, [], ◌∷◌, none, some, ok, arith, if◌then◌else◌, Bool-cases, inl,
  inr,
}
use meteo.Base.Int.{ℤ, pos, pos_part}
use meteo.Value.{to, null, Store}
use meteo.Value.Laws.{assigns, step, IsManaged, step-IsManaged}
use meteo.Time.Level.{Level}
use meteo.Time.Label.{Tm, normalize}
use meteo.Time.Label.Laws.{IsFixed, IsMiddle, normalize-IsMiddle}

-- Two variables on one value, and an empty one.
abbrev shared : Store ℕ
shared = record {
  cells = λ a. if 0 == a then some record { refcount = pos 2; object = 7 } else none;
  next = 1;
  handles = to 0 ∷ to 0 ∷ null ∷ [];
}

shared-IsManaged : IsManaged shared
shared-IsManaged = (
  λ a. elim (Bool-cases (0 == a)) [ inl e ↦ rw e (refl, omega arith) | inr e ↦ rw e refl ],
  λ a h. ground arith,
)

step-IsManaged_example : (s' : Store ℕ) × (step (assigns 0 2) shared ≡ ok s') × IsManaged s'
step-IsManaged_example =
    step-IsManaged (assigns 0 2) shared shared-IsManaged ((to 0, refl), (null, refl))

-- A zone one hour east of Greenwich, with months of 28 days and years of 365.
abbrev local_of : ℕ → Tm
local_of u = record {
  tm_sec = u % 60;
  tm_min = u % 3600 / 60;
  tm_hour = u % 86400 / 3600;
  tm_mday = u / 86400 % 28 + 1;
  tm_wday = (u / 86400 + 4) % 7;
  tm_yday = u / 86400 % 365;
}

abbrev local : ℤ → Tm
local t = local_of (pos_part t + 3600)

local-IsFixed : IsFixed local 3600 (λ d. d % 28 + 1) (λ d. d % 365)
local-IsFixed = record {
  is_zone = omega arith;
  sec = λ n. refl;
  min = λ n. refl;
  hours = λ n. refl;
  of_week = λ n. refl;
  of_month = λ n. refl;
  of_year = λ n. refl;
  month_begins = λ d. omega arith;
  month_earlier = λ d j h. omega arith;
  month_later = λ d j h. omega arith;
  year_begins = λ d. omega arith;
  year_earlier = λ d j h. omega arith;
  year_later = λ d j h. omega arith;
}

normalize-IsMiddle_example :
    (m : ℕ) × (normalize local 2 Level.month (pos 1000000000) ≡ some (pos m))
    × IsMiddle local Level.month (pos m)
normalize-IsMiddle_example =
    normalize-IsMiddle local 3600 (λ d. d % 28 + 1) (λ d. d % 365) local-IsFixed 0 Level.month
      1000000000 (omega arith)
