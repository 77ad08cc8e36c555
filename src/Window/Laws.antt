-- ===== src/Window/Laws.antt =====
-- The columns of a window of lib/GraphWindow.cc, and the lines that its loops draw.
use native.Mathlib.Nat.{
  add-mul-mod_self_right, mod-lt, mod-eq_of_lt, div-add-mod', mul-div_cancel, le-div_iff_mul-le,
}
use meteo.Base.{ℕ, ◌+◌, ◌-◌, ◌*◌, ◌/◌, ◌%◌, ◌≤◌, ◌<◌, ◌≡◌, sym, ap, ◌∙◌, true, arith}
use meteo.Base.Int.{ℤ, pos, pos_part, ◌+ℤ◌, ◌-ℤ◌, +ℤ_parts, -ℤ_parts, ◌≤ℤ◌, ltb_ℤ}
use meteo.Base.Double.{Double}
use meteo.Time.Offset.{timekey_of, timekey_of-add, sub_mod, timekey_of-sub}
use meteo.Frame.{get_left, get_right}
use meteo.Window.{
  Window, quot_ℤ, get_width, reduce_time, set_end_time, get_index_from_time, get_x_from_time,
  get_time_from_index,
}

sub_start : (s n : ℕ) → pos (s + n) -ℤ pos s ≡ pos n
unfolding ◌-ℤ◌
sub_start s n = ground arith

after_left : (x : ℤ) (i : ℕ) → x ≤ℤ x +ℤ pos i
after_left x i = let e = +ℤ_parts x (pos i) in omega (arith, e)

columns_up : (x : ℤ) (i j : ℕ) → i ≤ j → x +ℤ pos i ≤ℤ x +ℤ pos j
columns_up x i j h =
    let e = +ℤ_parts x (pos i) in let f = +ℤ_parts x (pos j) in omega (arith, e, f, h)

before_right : (x y : ℤ) (i : ℕ) → i < pos_part (y -ℤ x) → ltb_ℤ (x +ℤ pos i) y ≡ true
before_right x y i h = let e = +ℤ_parts x (pos i) in let f = -ℤ_parts y x in ground (arith, e, f, h)

module _ {D : Type 0} ⦃d : Double D⦄ (g : Window D) where
  -- The window begins after 1970, with a time whose timekey the interval divides.
  pub record IsOnGrid : Type 0 where
    pub some_time : 1 ≤ g.interval
    pub late : 1 ≤ timekey_of g.offset g.starttime
    pub grid : timekey_of g.offset g.starttime % g.interval ≡ 0

  module _ (h : IsOnGrid) where
    key_at : (u : ℕ) → timekey_of g.offset (g.starttime + u) ≡ timekey_of g.offset g.starttime + u
    key_at u = timekey_of-add g.offset g.starttime u h.late

    mod_at :
        (i r : ℕ)
        → r < g.interval
        → timekey_of g.offset (g.starttime + (i * g.interval + r)) % g.interval ≡ r
    mod_at i r small =
        let key = timekey_of g.offset g.starttime in
        let n = g.interval in
        let parts = div-add-mod' key n in
        let grid = h.grid in
        let whole : key + (i * n + r) ≡ r + (key / n) * n + i * n = omega (arith, parts, grid) in
        ap (λ k. k % n) (key_at (i * n + r) ∙ whole)
        ∙ add-mul-mod_self_right (r + (key / n) * n) i n
        ∙ add-mul-mod_self_right r (key / n) n
        ∙ mod-eq_of_lt small

    reduce_at :
        (i r : ℕ)
        → r < g.interval
        → reduce_time g (g.starttime + (i * g.interval + r)) ≡ g.starttime + i * g.interval
    unfolding reduce_time
    reduce_at i r small = let m = mod_at i r small in omega (arith, m)

    index_at :
        (i r : ℕ)
        → r < g.interval
        → get_index_from_time g (g.starttime + (i * g.interval + r)) ≡ pos i
    unfolding get_index_from_time
    index_at i r small =
        let positive : 0 < g.interval = omega (arith, small) in
        ap (λ (t : ℕ). quot_ℤ (pos t -ℤ pos g.starttime) g.interval) (reduce_at i r small)
        ∙ ap (λ z. quot_ℤ z g.interval) (sub_start g.starttime (i * g.interval))
        ∙ ap (λ k. pos k) (mul-div_cancel i positive)

    index_of_time : (u : ℕ) → get_index_from_time g (g.starttime + u) ≡ pos (u / g.interval)
    index_of_time u =
        let some_time = h.some_time in
        let positive : 0 < g.interval = omega (arith, some_time) in
        let parts : u / g.interval * g.interval + u % g.interval ≡ u = div-add-mod' u g.interval in
        ap (λ (k : ℕ). get_index_from_time g (g.starttime + k)) (sym parts)
        ∙ index_at (u / g.interval) (u % g.interval) (mod-lt u positive)

    -- The columns of times from the start on do not go back.
    pub get_x-le : (a b : ℕ) → g.starttime ≤ a → a ≤ b → get_x_from_time g a ≤ℤ get_x_from_time g b
    unfolding get_x_from_time
    get_x-le a b from up =
        let some_time = h.some_time in
        let positive : 0 < g.interval = omega (arith, some_time) in
        let u = a - g.starttime in
        let v = b - g.starttime in
        let at_a : g.starttime + u ≡ a = omega (arith, from) in
        let at_b : g.starttime + v ≡ b = omega (arith, from, up) in
        let ordered : u ≤ v = omega (arith, up) in
        let below : u / g.interval * g.interval ≤ v =
          omega (arith, div-add-mod' u g.interval, ordered) in
        let steps : u / g.interval ≤ v / g.interval = (le-div_iff_mul-le positive).1 below in
        let index_a : get_index_from_time g a ≡ pos (u / g.interval) =
          ap (get_index_from_time g) (sym at_a) ∙ index_of_time u in
        let index_b : get_index_from_time g b ≡ pos (v / g.interval) =
          ap (get_index_from_time g) (sym at_b) ∙ index_of_time v in
        rw (index_a, index_b)
          (columns_up (get_left g.window) (u / g.interval) (v / g.interval) steps)

    -- In a window on its grid, every time of the i-th interval has the index i, also the one that
    -- getTimeFromIndex gives; where i is below the width, its column lies in the window.
    pub get_index-get_time :
        (i r : ℕ)
        → r < g.interval
        → i < get_width g
        → (get_index_from_time g (get_time_from_index g i + r) ≡ pos i)
          × (get_left g.window ≤ℤ get_x_from_time g (get_time_from_index g i + r))
          × (ltb_ℤ (get_x_from_time g (get_time_from_index g i + r)) (get_right g.window) ≡ true)
    unfolding get_x_from_time
    get_index-get_time i r small inside =
        let regroup : get_time_from_index g i + r ≡ g.starttime + (i * g.interval + r) =
          omega arith in
        let same : get_index_from_time g (get_time_from_index g i + r) ≡ pos i =
          ap (get_index_from_time g) regroup ∙ index_at i r small in
        (
          same,
          rw same (after_left (get_left g.window) i),
          rw same (before_right (get_left g.window) (get_right g.window) i inside),
        )

-- Where the end time is late enough for a window that begins after 1970, setEndTime puts the window on its grid:
-- the interval divides the timekeys of both of its ends, and there is an interval for each column between them.
pub set_end_time-IsOnGrid :
    {D : Type 0} ⦃d : Double D⦄ (g : Window D) (e : ℕ)
    → 1 ≤ g.interval
    → get_width g * g.interval + g.interval ≤ e
    → get_width g * g.interval + g.interval ≤ timekey_of g.offset e
    → IsOnGrid (set_end_time e g)
      × (timekey_of g.offset (set_end_time e g).endtime % g.interval ≡ 0)
      × ((set_end_time e g).starttime + get_width g * g.interval ≡ (set_end_time e g).endtime)
unfolding set_end_time reduce_time
set_end_time-IsOnGrid g e one late late_key =
    let n = g.interval in
    let key = timekey_of g.offset e in
    let span = get_width g * n in
    let positive : 0 < n = omega (arith, one) in
    let small = mod-lt key positive in
    let at_end =
      timekey_of-sub g.offset e (key % n) (omega (arith, small, late_key, one))
        (omega (arith, small, late)) in
    let before_end : span < timekey_of g.offset (e - key % n) =
      omega (arith, at_end, small, late_key) in
    let time_left : span ≤ e - key % n = omega (arith, small, late) in
    let at_start = timekey_of-sub g.offset (e - key % n) span before_end time_left in
    let on_end : timekey_of g.offset (e - key % n) % n ≡ 0 =
      ap (λ k. k % n) at_end ∙ sub_mod key n in
    let shift = add-mul-mod_self_right (timekey_of g.offset (e - key % n - span)) (get_width g) n in
    let back : timekey_of g.offset (e - key % n - span) + span ≡ timekey_of g.offset (e - key % n) =
      omega (arith, at_start, before_end) in
    (
      record {
        some_time = one;
        late = omega (arith, at_start, before_end);
        grid = sym shift ∙ ap (λ k. k % n) back ∙ on_end;
      },
      on_end,
      omega (arith, time_left),
    )
