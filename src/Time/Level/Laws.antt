-- ===== src/Time/Level/Laws.antt =====
-- Round trips of lib/Level.cc.
use meteo.Base.{ℕ, ◌<◌, ◌≡◌, refl, ◌↔◌, some, ok, arith}
use meteo.Time.Level.{
  Level, hour, day, week, month, year, of_name, of_interval, get_level_string, get_interval,
  get_duration, up, down,
}

-- A level is found again from its interval and from its name, and no other interval is taken for one.
pub of_interval-get_interval :
    (l : Level) (n : ℕ)
    → (of_interval (get_interval l) ≡ ok l)
      × (of_name (get_level_string l) ≡ some l)
      × ((of_interval n ≡ ok l) ↔ (n ≡ get_interval l))
unfolding of_interval get_interval of_name get_level_string
of_interval-get_interval hour n = (refl, refl, (λ e. ground arith, λ e. ground arith))
of_interval-get_interval day n = (refl, refl, (λ e. ground arith, λ e. ground arith))
of_interval-get_interval week n = (refl, refl, (λ e. ground arith, λ e. ground arith))
of_interval-get_interval month n = (refl, refl, (λ e. ground arith, λ e. ground arith))
of_interval-get_interval year n = (refl, refl, (λ e. ground arith, λ e. ground arith))

-- One level goes up to another exactly if that one goes down to it.
pub up-down : (l m : Level) → ((up l ≡ ok m) ↔ (down m ≡ ok l))
unfolding up down
up-down l m = (λ e. ground arith, λ e. ground arith)

-- Going up leads to a longer interval and a longer duration.
pub up_longer :
    (l m : Level)
    → up l ≡ ok m
    → (get_interval l < get_interval m) × (get_duration l < get_duration m)
unfolding up get_interval get_duration
up_longer l m e = ground arith
