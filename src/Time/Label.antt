-- ===== src/Time/Label.antt =====
-- lib/Timelabel.cc and include/Timelabel.h: the time at the middle of an interval of the hierarchy.
-- `localtime` is that of the C library, handed in.
pub mod Laws
use meteo.Base.{
  ℕ, zero, suc, ◌+◌, ◌*◌, Bool, Option, none, some, Result, ok, err, ◌>>=◌, if◌then◌else◌, ◌==◌,
  ◌&&◌,
}
use meteo.Base.Int.{ℤ, pos, negsuc, pos_part, neg_part, ◌+ℤ◌, ◌-ℤ◌}
use meteo.Time.Level.{Level, hour, day, week, month, year, get_duration}
use meteo.Time.Level

-- The members of `struct tm` that are read, which localtime leaves not negative.
pub record Tm : Type 0 where
  pub tm_sec : ℕ
  pub tm_min : ℕ
  pub tm_hour : ℕ
  pub tm_mday : ℕ
  pub tm_wday : ℕ
  pub tm_yday : ℕ

pub record Timelabel : Type 0 where
  pub midtime : ℤ
  pub level : Level

abbrev pub eq_ℤ : ℤ → ℤ → Bool
eq_ℤ a b = pos_part a == pos_part b && neg_part a == neg_part b

module _ (localtime : ℤ → Tm) where
  -- One round of normalize: the time without minutes and seconds, then noon, then the day.
  abbrev pub full_hour : ℤ → ℤ
  full_hour t = let tms = localtime t in t -ℤ pos (60 * tms.tm_min + tms.tm_sec)

  abbrev pub noon : ℤ → ℤ
  noon t = full_hour t +ℤ pos (3600 * 12) -ℤ pos (3600 * (localtime t).tm_hour)

  unfoldable pub reduce : Level → ℤ → ℤ
  reduce hour t = full_hour t
  reduce day t = noon t
  reduce week t = noon t +ℤ pos (86400 * 3) -ℤ pos (86400 * (localtime t).tm_wday)
  reduce month t = noon t +ℤ pos (86400 * 15) -ℤ pos (86400 * (localtime t).tm_mday)
  reduce year t = noon t +ℤ pos (86400 * 182) -ℤ pos (86400 * (localtime t).tm_yday)

  -- Timelabel::normalize, on a bound for the depth of its recursion
  unfoldable pub normalize : ℕ → Level → ℤ → Option ℤ
  unfolding reduce
  normalize zero l t = none
  normalize (suc depth) l t =
      let wt = reduce l t in let rest = normalize depth l wt in if eq_ℤ t wt then some t else rest

  abbrev pub labelled : Level → Option ℤ → Option Timelabel
  labelled l none = none
  labelled l (some t) = some record { midtime = t; level = l }

  -- Timelabel(time_t, const Level&)
  unfoldable pub of_time : ℕ → ℤ → Level → Option Timelabel
  unfolding normalize
  of_time depth t l = labelled l (normalize depth l t)

  -- previous and next
  unfoldable pub previous : ℕ → Timelabel → Option Timelabel
  unfolding of_time
  previous depth label = of_time depth (label.midtime -ℤ pos (get_duration label.level)) label.level

  unfoldable pub next : ℕ → Timelabel → Option Timelabel
  unfolding of_time
  next depth label = of_time depth (label.midtime +ℤ pos (get_duration label.level)) label.level

  -- up, upup and upupup; down, downdown and downdowndown: the level may throw
  unfoldable pub at_level : ℕ → Timelabel → Level → Result (Option Timelabel)
  unfolding of_time
  at_level depth label l = ok (of_time depth label.midtime l)

  unfoldable pub up : ℕ → Timelabel → Result (Option Timelabel)
  unfolding at_level
  up depth label = Level.up label.level >>= at_level depth label

  unfoldable pub upup : ℕ → Timelabel → Result (Option Timelabel)
  unfolding at_level
  upup depth label = Level.up label.level >>= Level.up >>= at_level depth label

  unfoldable pub upupup : ℕ → Timelabel → Result (Option Timelabel)
  unfolding at_level
  upupup depth label = Level.up label.level >>= Level.up >>= Level.up >>= at_level depth label

  unfoldable pub down : ℕ → Timelabel → Result (Option Timelabel)
  unfolding at_level
  down depth label = Level.down label.level >>= at_level depth label

  unfoldable pub downdown : ℕ → Timelabel → Result (Option Timelabel)
  unfolding at_level
  downdown depth label = Level.down label.level >>= Level.down >>= at_level depth label

  unfoldable pub downdowndown : ℕ → Timelabel → Result (Option Timelabel)
  unfolding at_level
  downdowndown depth label =
      Level.down label.level >>= Level.down >>= Level.down >>= at_level depth label
