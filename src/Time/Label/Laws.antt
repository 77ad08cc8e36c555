-- ===== src/Time/Label/Laws.antt =====
-- The recursion of lib/Timelabel.cc in a zone whose clock is never moved.
use meteo.Base.{
  ℕ, suc, ◌+◌, ◌-◌, ◌*◌, ◌/◌, ◌%◌, ◌≤◌, ◌<◌, ◌≡◌, refl, ap, ◌∙◌, true, some, arith, if◌then◌else◌,
  leb, leb→le, Bool-cases, inl, inr,
}
use meteo.Base.Int.{ℤ, pos, ◌+ℤ◌, ◌-ℤ◌}
use meteo.Time.Level.{Level, hour, day, week, month, year}
use meteo.Time.Label.{Tm, eq_ℤ, full_hour, noon, reduce, normalize}

-- What `localtime` does from 1970 on, `east` seconds east of Greenwich and without daylight saving time.
-- A day is counted from January 1st, 1970, a Thursday; `mday` and `yday` are the calendar, on the days of
-- one month and of one year.
pub record IsFixed (localtime : ℤ → Tm) (east : ℕ) (mday yday : ℕ → ℕ) : Type 0 where
  pub is_zone : east < 86400
  pub sec : (n : ℕ) → (localtime (pos n)).tm_sec ≡ (n + east) % 60
  pub min : (n : ℕ) → (localtime (pos n)).tm_min ≡ (n + east) % 3600 / 60
  pub hours : (n : ℕ) → (localtime (pos n)).tm_hour ≡ (n + east) % 86400 / 3600
  pub of_week : (n : ℕ) → (localtime (pos n)).tm_wday ≡ ((n + east) / 86400 + 4) % 7
  pub of_month : (n : ℕ) → (localtime (pos n)).tm_mday ≡ mday ((n + east) / 86400)
  pub of_year : (n : ℕ) → (localtime (pos n)).tm_yday ≡ yday ((n + east) / 86400)
  pub month_begins : (d : ℕ) → mday d ≤ d + 1
  pub month_earlier : (d j : ℕ) → j < mday d → mday (d - j) ≡ mday d - j
  pub month_later : (d j : ℕ) → mday d + j ≤ 28 → mday (d + j) ≡ mday d + j
  pub year_begins : (d : ℕ) → yday d ≤ d
  pub year_earlier : (d j : ℕ) → j ≤ yday d → yday (d - j) ≡ yday d - j
  pub year_later : (d j : ℕ) → yday d + j ≤ 364 → yday (d + j) ≡ yday d + j

sub_pos : (a b : ℕ) → b ≤ a → pos a -ℤ pos b ≡ pos (a - b)
unfolding ◌-ℤ◌
sub_pos a b h = ground arith

add_pos : (a b : ℕ) → pos a +ℤ pos b ≡ pos (a + b)
unfolding ◌+ℤ◌
add_pos a b = ground arith

eq_self : (t : ℕ) → eq_ℤ (pos t) (pos t) ≡ true
eq_self t = ground arith

either_way :
    (n m : ℕ) → (if eq_ℤ (pos n) (pos m) then some (pos n) else some (pos m)) ≡ some (pos m)
either_way n m = ground arith

module _ (localtime : ℤ → Tm) where
  abbrev pub IsFullHour : ℤ → Type 0
  IsFullHour t = ((localtime t).tm_min ≡ 0) × ((localtime t).tm_sec ≡ 0)

  abbrev pub IsNoon : ℤ → Type 0
  IsNoon t = ((localtime t).tm_hour ≡ 12) × IsFullHour t

  -- The broken down local time that a label stands for.
  abbrev pub IsMiddle : Level → ℤ → Type 0
  IsMiddle hour t = IsFullHour t
  IsMiddle day t = IsNoon t
  IsMiddle week t = ((localtime t).tm_wday ≡ 3) × IsNoon t
  IsMiddle month t = ((localtime t).tm_mday ≡ 15) × IsNoon t
  IsMiddle year t = ((localtime t).tm_yday ≡ 182) × IsNoon t

module _ (localtime : ℤ → Tm) (east : ℕ) (mday yday : ℕ → ℕ)
    (laws : IsFixed localtime east mday yday) where
  open laws use {
    is_zone, sec, min, hours, of_week, of_month, of_year, month_begins, month_earlier, month_later,
    year_begins, year_earlier, year_later,
  }

  -- The day that a time falls on.
  abbrev pub day_of : ℕ → ℕ
  day_of n = (n + east) / 86400

  -- Noon of a day.
  abbrev pub noon_of : ℕ → ℕ
  noon_of d = 86400 * d + 43200 - east

  day_of-noon_of : (d : ℕ) → 1 ≤ d → day_of (noon_of d) ≡ d
  day_of-noon_of d h = omega (arith, is_zone)

  -- The day in the middle of the interval.
  abbrev pub middle : Level → ℕ → ℕ
  middle hour d = d
  middle day d = d
  middle week d = d + 3 - (d + 4) % 7
  middle month d = d + 15 - mday d
  middle year d = d + 182 - yday d

  mday-middle : (d : ℕ) → mday (middle month d) ≡ 15
  mday-middle d = elim (Bool-cases (leb (mday d) 15)) [
    | inl early ↦
        let p : mday d ≤ 15 = leb→le (mday d) 15 early in
        let same : middle month d ≡ d + (15 - mday d) = omega (arith, month_begins d) in
        ap mday same ∙ month_later d (15 - mday d) (omega arith) ∙ omega arith
    | inr late ↦
        let p : 15 < mday d = ground arith in
        let same : middle month d ≡ d - (mday d - 15) = omega (arith, month_begins d) in
        ap mday same ∙ month_earlier d (mday d - 15) (omega arith) ∙ omega arith
  ]

  yday-middle : (d : ℕ) → yday (middle year d) ≡ 182
  yday-middle d = elim (Bool-cases (leb (yday d) 182)) [
    | inl early ↦
        let p : yday d ≤ 182 = leb→le (yday d) 182 early in
        let same : middle year d ≡ d + (182 - yday d) = omega (arith, year_begins d) in
        ap yday same ∙ year_later d (182 - yday d) (omega arith) ∙ omega arith
    | inr late ↦
        let p : 182 < yday d = ground arith in
        let same : middle year d ≡ d - (yday d - 182) = omega (arith, year_begins d) in
        ap yday same ∙ year_earlier d (yday d - 182) (omega arith) ∙ omega arith
  ]

  middle-middle : (l : Level) (d : ℕ) → 7 ≤ d → middle l (middle l d) ≡ middle l d
  middle-middle hour d h = refl
  middle-middle day d h = refl
  middle-middle week d h = omega arith
  middle-middle month d h = omega (arith, mday-middle d)
  middle-middle year d h = omega (arith, yday-middle d)

  middle_late : (l : Level) (d : ℕ) → 7 ≤ d → 1 ≤ middle l d
  middle_late hour d h = omega arith
  middle_late day d h = omega arith
  middle_late week d h = omega arith
  middle_late month d h = omega (arith, month_begins d)
  middle_late year d h = omega (arith, year_begins d)

  -- The time that a round goes to.
  abbrev pub target : Level → ℕ → ℕ
  target hour n = n - (n + east) % 3600
  target day n = noon_of (middle day (day_of n))
  target week n = noon_of (middle week (day_of n))
  target month n = noon_of (middle month (day_of n))
  target year n = noon_of (middle year (day_of n))

  reduce_hour : (n : ℕ) → 3600 ≤ n → full_hour localtime (pos n) ≡ pos (target hour n)
  reduce_hour n h = rw (sec n, min n) (sub_pos n _ (omega arith) ∙ ap pos (omega arith))

  reduce_noon :
      (n : ℕ) → 3600 ≤ n → 1 ≤ day_of n → noon localtime (pos n) ≡ pos (noon_of (day_of n))
  reduce_noon n h k =
      let first = reduce_hour n h in
      rw (first, hours n)
        (ap (λ t. t -ℤ pos (3600 * ((n + east) % 86400 / 3600))) (add_pos (target hour n) 43200)
          ∙ sub_pos _ _ (omega (arith, is_zone))
          ∙ ap pos (omega (arith, is_zone)))

  -- From noon of a day to noon of the day in the middle.
  to_middle :
      (d m k : ℕ)
      → 1 ≤ d
      → 1 ≤ d + m - k
      → pos (noon_of d) +ℤ pos (86400 * m) -ℤ pos (86400 * k) ≡ pos (noon_of (d + m - k))
  to_middle d m k h p =
      ap (λ t. t -ℤ pos (86400 * k)) (add_pos (noon_of d) (86400 * m))
      ∙ sub_pos _ _ (omega (arith, is_zone))
      ∙ ap pos (omega (arith, is_zone))

  reduce-target :
      (l : Level) (n : ℕ)
      → 3600 ≤ n
      → 1 ≤ day_of n
      → 1 ≤ middle l (day_of n)
      → reduce localtime l (pos n) ≡ pos (target l n)
  unfolding reduce
  reduce-target hour n h k p = reduce_hour n h
  reduce-target day n h k p = reduce_noon n h k
  reduce-target week n h k p =
      rw (reduce_noon n h k, of_week n) (to_middle (day_of n) 3 ((day_of n + 4) % 7) k p)
  reduce-target month n h k p =
      rw (reduce_noon n h k, of_month n) (to_middle (day_of n) 15 (mday (day_of n)) k p)
  reduce-target year n h k p =
      rw (reduce_noon n h k, of_year n) (to_middle (day_of n) 182 (yday (day_of n)) k p)

  -- A middle stays where it is.
  middle_stays :
      (l : Level) (d : ℕ)
      → 7 ≤ d
      → noon_of (middle l (day_of (noon_of (middle l d)))) ≡ noon_of (middle l d)
  middle_stays l d h =
      ap (λ k. noon_of (middle l k)) (day_of-noon_of (middle l d) (middle_late l d h))
      ∙ ap noon_of (middle-middle l d h)

  target_day : (l : Level) (n : ℕ) → 7 ≤ day_of n → day_of (target l n) ≡ middle l (day_of n)
  target_day hour n h = omega (arith, is_zone)
  target_day day n h = day_of-noon_of _ (middle_late day (day_of n) h)
  target_day week n h = day_of-noon_of _ (middle_late week (day_of n) h)
  target_day month n h = day_of-noon_of _ (middle_late month (day_of n) h)
  target_day year n h = day_of-noon_of _ (middle_late year (day_of n) h)

  target_late : (l : Level) (n : ℕ) → 7 ≤ day_of n → 3600 ≤ target l n
  target_late hour n h = omega (arith, is_zone)
  target_late day n h = omega (arith, is_zone, middle_late day (day_of n) h)
  target_late week n h = omega (arith, is_zone, middle_late week (day_of n) h)
  target_late month n h = omega (arith, is_zone, middle_late month (day_of n) h)
  target_late year n h = omega (arith, is_zone, middle_late year (day_of n) h)

  target_stays : (l : Level) (n : ℕ) → 7 ≤ day_of n → target l (target l n) ≡ target l n
  target_stays hour n h = omega (arith, is_zone)
  target_stays day n h = middle_stays day (day_of n) h
  target_stays week n h = middle_stays week (day_of n) h
  target_stays month n h = middle_stays month (day_of n) h
  target_stays year n h = middle_stays year (day_of n) h

  reduce_again :
      (l : Level) (n : ℕ) → 7 ≤ day_of n → reduce localtime l (pos (target l n)) ≡ pos (target l n)
  reduce_again l n h =
      reduce-target l (target l n) (target_late l n h)
        (rw (target_day l n h) (middle_late l (day_of n) h))
        (rw (target_day l n h, middle-middle l (day_of n) h) (middle_late l (day_of n) h))
      ∙ ap pos (target_stays l n h)

  stops :
      (depth : ℕ) (l : Level) (t : ℕ)
      → reduce localtime l (pos t) ≡ pos t
      → normalize localtime (suc depth) l (pos t) ≡ some (pos t)
  unfolding normalize
  stops depth l t e =
      ap (λ w. if eq_ℤ (pos t) w then some (pos t) else normalize localtime depth l w) e
      ∙ ap (λ b. if b then some (pos t) else normalize localtime depth l (pos t)) (eq_self t)

  noon_of-IsNoon : (d : ℕ) → 1 ≤ d → IsNoon localtime (pos (noon_of d))
  noon_of-IsNoon d h = (
    hours (noon_of d) ∙ omega (arith, is_zone),
    (min (noon_of d) ∙ omega (arith, is_zone), sec (noon_of d) ∙ omega (arith, is_zone)),
  )

  target-IsMiddle : (l : Level) (n : ℕ) → 7 ≤ day_of n → IsMiddle localtime l (pos (target l n))
  target-IsMiddle hour n h =
      (min (target hour n) ∙ omega (arith, is_zone), sec (target hour n) ∙ omega (arith, is_zone))
  target-IsMiddle day n h = noon_of-IsNoon (day_of n) (omega arith)
  target-IsMiddle week n h = (
    of_week (target week n) ∙ omega (arith, target_day week n h),
    noon_of-IsNoon _ (middle_late week (day_of n) h),
  )
  target-IsMiddle month n h = (
    of_month (target month n) ∙ ap mday (target_day month n h) ∙ mday-middle (day_of n),
    noon_of-IsNoon _ (middle_late month (day_of n) h),
  )
  target-IsMiddle year n h = (
    of_year (target year n) ∙ ap yday (target_day year n h) ∙ yday-middle (day_of n),
    noon_of-IsNoon _ (middle_late year (day_of n) h),
  )

  -- In a zone east of Greenwich without daylight saving time, from the second week of 1970 on: `normalize`
  -- ends within two rounds, at a time whose local form is the full hour, noon, noon of a Wednesday, of the 15th
  -- of a month or of the day 182 of a year, by the level.
  pub normalize-IsMiddle :
      (depth : ℕ) (l : Level) (n : ℕ)
      → 604800 ≤ n
      → (m : ℕ) × (normalize localtime (suc (suc depth)) l (pos n) ≡ some (pos m))
        × IsMiddle localtime l (pos m)
  unfolding normalize
  normalize-IsMiddle depth l n h =
      let late : 7 ≤ day_of n = omega arith in
      let m = target l n in
      let e = reduce-target l n (omega arith) (omega arith) (middle_late l (day_of n) late) in
      (
        m,
        ap (λ w. if eq_ℤ (pos n) w then some (pos n) else normalize localtime (suc depth) l w) e
            ∙ ap (λ o. if eq_ℤ (pos n) (pos m) then some (pos n) else o)
                (stops depth l m (reduce_again l n late))
            ∙ either_way n m,
        target-IsMiddle l n late,
      )
