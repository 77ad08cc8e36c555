-- ===== src/Window/Grid/Laws.antt =====
-- The areas of the image map of lib/GraphWindow.cc.
use meteo.Base.{
  ℕ, zero, suc, ◌+◌, ◌-◌, ◌≤◌, ◌<◌, ◌≡◌, refl, sym, ◌∙◌, Bool, true, false, ltb, leb, List, [], ◌∷◌,
  ◌++◌, String, Bool-cases, inl, inr, arith,
}
use meteo.Base.Int.{ℤ, ◌≤ℤ◌}
use meteo.Base.Double.{Double}
use meteo.Frame.{get_left, get_right}
use meteo.Window.{Window, get_x_from_time}
use meteo.Window.Laws.{IsOnGrid, get_x-le}
use meteo.Window.Grid.{
  MapArea, Clock, Progress, Marks, marks_of, get_area, add_area, ticked, labelled_at, mark,
  mark_from, draw_time_grid,
}

-- The areas lie side by side between two columns, and none ends before it begins.
abbrev pub IsChain : ℤ → List MapArea → ℤ → Type 0
IsChain x [] y = x ≡ y
IsChain x (a ∷ areas) y =
    (get_left a.area ≡ x)
    × (get_left a.area ≤ℤ get_right a.area)
    × IsChain (get_right a.area) areas y

IsChain-append :
    (x y : ℤ) (areas : List MapArea) (a : MapArea)
    → IsChain x areas y
    → get_left a.area ≡ y
    → get_left a.area ≤ℤ get_right a.area
    → IsChain x (areas ++ (a ∷ [])) (get_right a.area)
IsChain-append x y [] a chain e up = (e ∙ sym chain, up, refl)
IsChain-append x y (b ∷ areas) a (first, up', chain) e up =
    (first, up', IsChain-append (get_right b.area) y areas a chain e up)

module _ {D : Type 0} ⦃d : Double D⦄ (c : Clock) (foreground : ℕ) (g : Window D) where
  -- The areas so far reach up to the start of the next, which is in the window and not behind the time `t`.
  record IsReached (t : ℕ) (p : Progress) : Type 0 where
    chain : IsChain (get_x_from_time g g.starttime) p.areas (get_x_from_time g p.areastart)
    from : g.starttime ≤ p.areastart
    inside : p.areastart ≤ g.endtime
    behind : p.areastart ≤ t

  module _ (grid : IsOnGrid g) (past : g.endtime < c.now) where
    area_added :
        (p : Progress) (t : ℕ)
        → IsReached t p
        → IsChain
            (get_x_from_time g g.starttime)
            (add_area c foreground g (get_area c foreground g p.areastart t) p.areas)
            (get_x_from_time g t)
    unfolding get_area
    area_added p t r =
        let inside = r.inside in
        let early : ltb p.areastart c.now ≡ true = ground (arith, inside, past) in
        rw early (
          IsChain-append (get_x_from_time g g.starttime) (get_x_from_time g p.areastart) p.areas
            (get_area c foreground g p.areastart t) r.chain refl
            (get_x-le g grid p.areastart t r.from r.behind))

    ticked-IsReached :
        (tick with_area : Bool) (t : ℕ) (p : Progress)
        → g.starttime ≤ t
        → t ≤ g.endtime
        → IsReached t p
        → IsReached t (ticked c foreground g tick with_area t p)
    ticked-IsReached false with_area t p after within r = r
    ticked-IsReached true false t p after within r = record {
      chain = r.chain;
      from = r.from;
      inside = r.inside;
      behind = r.behind;
    }
    ticked-IsReached true true t p after within r = record {
      chain = area_added p t r;
      from = after;
      inside = within;
      behind = omega arith;
    }

    labelled_at-IsReached :
        (b : Bool) (t u : ℕ) (label : String) (p : Progress)
        → t ≤ u
        → IsReached t p
        → IsReached u (labelled_at c foreground g b t label p)
    labelled_at-IsReached false t u label p up r =
        let behind = r.behind in
        record {
          chain = r.chain;
          from = r.from;
          inside = r.inside;
          behind = omega (arith, behind, up);
        }
    labelled_at-IsReached true t u label p up r =
        let behind = r.behind in
        record {
          chain = r.chain;
          from = r.from;
          inside = r.inside;
          behind = omega (arith, behind, up);
        }

    -- The time after the loop: that of the last round, or the end of the window.
    mark_from-IsReached :
        (marks : Marks) (n t : ℕ) (p : Progress)
        → g.starttime ≤ t
        → IsReached t p
        → IsReached g.endtime (mark_from c foreground g marks n t p)
    mark_from-IsReached marks zero t p after r = record {
      chain = r.chain;
      from = r.from;
      inside = r.inside;
      behind = r.inside;
    }
    mark_from-IsReached marks (suc n) t p after r = elim (Bool-cases (leb t g.endtime)) [
      | inr over ↦
          rw over (record { chain = r.chain; from = r.from; inside = r.inside; behind = r.inside })
      | inl before ↦
          let within : t ≤ g.endtime = ground (arith, before) in
          let lt = c.localtime t in
          rw before (
            mark_from-IsReached marks n (t + g.interval) (mark c foreground g marks t p)
              (omega (arith, after))
              (labelled_at-IsReached (marks.label lt) t (t + g.interval)
                (c.strftime marks.format lt)
                (ticked c foreground g (marks.tick lt) marks.with_area t p) (omega arith)
                (ticked-IsReached (marks.tick lt) marks.with_area t p after within r)))
    ]

    -- In a window on its grid of more than 300 seconds for a column, which ends before the present, whatever the
    -- local time is: the areas of the image map lie side by side, without a gap or an overlap, from the column of
    -- the start time to that of the end time, and the right edge of each is not left of its left edge.
    pub draw_time_grid-IsChain :
        300 < g.interval
        → g.starttime ≤ g.endtime
        → IsChain
            (get_x_from_time g g.starttime)
            (draw_time_grid c foreground g).areas
            (get_x_from_time g g.endtime)
    unfolding draw_time_grid
    draw_time_grid-IsChain wide ahead =
        let begun : Progress = record { drawn = []; areas = []; areastart = g.starttime } in
        let start : IsReached g.starttime begun = record {
          chain = refl;
          from = omega arith;
          inside = ahead;
          behind = omega arith;
        } in
        let rounds = g.endtime + 1 - g.starttime in
        let marked =
          mark_from-IsReached (marks_of g.interval) rounds g.starttime begun (omega arith) start in
        let is_wide : ltb 300 g.interval ≡ true = ground (arith, wide) in
        rw is_wide (
          area_added (mark_from c foreground g (marks_of g.interval) rounds g.starttime begun)
            g.endtime marked)
