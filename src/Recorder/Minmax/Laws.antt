-- ===== src/Recorder/Minmax/Laws.antt =====
-- The extremes that lib/MinmaxRecorder.cc keeps.
use meteo.Base.{◌≡◌, true, false, List, [], ◌∷◌, All, arith, inl, inr, Bool-cases}
use meteo.Base.Double.{Double, IsOrdered}
use meteo.Base.Extremes.{not_above_new, not_below_new, new_above, new_below}
use meteo.Time.Timeval.{Timeval}
use meteo.Recorder.Basic
use meteo.Recorder.Basic.{Basic}
use meteo.Recorder.Minmax.{Minmax, reset, update}

-- A reading with the two times at which the clock is read.
pub record Reading (D : Type 0) : Type 0 where
  pub average_at : Timeval
  pub update_at : Timeval
  pub reading : D

module _ {D : Type 0} ⦃d : Double D⦄ where
  -- The updates of one minute, one after the other.
  abbrev pub observe : List (Reading D) → Minmax D → Minmax D
  observe [] r = r
  observe (x ∷ xs) r = observe xs (update x.average_at x.update_at x.reading r)

  -- `v` is not above the maximum and not below the minimum.
  abbrev pub Within : Minmax D → D → Type 0
  Within r v = (d.lt r.max v ≡ false) × (d.lt v r.min ≡ false)

  abbrev pub Enclosed : Minmax D → List (Reading D) → Type 0
  Enclosed r = All (λ x. Within r x.reading)

  module _ (laws : IsOrdered D) where
    open laws use {lt_irrefl}

    update_valid :
        (s now : Timeval) (v : D) (r : Minmax D) → (update s now v r).basic.isvalid ≡ true
    unfolding update Basic.update
    update_valid s now v r = ground arith

    update-Within :
        (s now : Timeval) (v x : D) (r : Minmax D)
        → r.basic.isvalid ≡ true
        → Within r x
        → Within (update s now v r) x
    unfolding update
    update-Within s now v x r valid (high, low) =
        rw valid (not_above_new laws r.max v x high, not_below_new laws r.min v x low)

    Within-update : (s now : Timeval) (v : D) (r : Minmax D) → Within (update s now v r) v
    unfolding update
    Within-update s now v r = elim (Bool-cases r.basic.isvalid) [
      | inl valid ↦ rw valid (new_above laws r.max v, new_below laws r.min v)
      | inr invalid ↦ rw invalid (lt_irrefl v, lt_irrefl v)
    ]

    update-Enclosed :
        (s now : Timeval) (v : D) (r : Minmax D) (seen : List (Reading D))
        → r.basic.isvalid ≡ true
        → Enclosed r seen
        → Enclosed (update s now v r) seen
    update-Enclosed s now v r [] valid _ = _
    update-Enclosed s now v r (x ∷ seen) valid (h, hs) =
        (update-Within s now v x.reading r valid h, update-Enclosed s now v r seen valid hs)

    observe-Enclosed_seen :
        (r : Minmax D) (seen xs : List (Reading D))
        → r.basic.isvalid ≡ true
        → Enclosed r seen
        → Enclosed (observe xs r) seen × Enclosed (observe xs r) xs
    observe-Enclosed_seen r seen [] valid hs = (hs, _)
    observe-Enclosed_seen r seen (x ∷ xs) valid hs =
        let next = update x.average_at x.update_at x.reading r in
        let later =
          observe-Enclosed_seen next (x ∷ seen) xs
            (update_valid x.average_at x.update_at x.reading r)
            (
              Within-update x.average_at x.update_at x.reading r,
              update-Enclosed x.average_at x.update_at x.reading r seen valid hs,
            ) in
        (later.0.1, (later.0.0, later.1))

    -- Where `<` is irreflexive and transitive: after a reset and any number of updates, no reading
    -- of the interval lies above the maximum or below the minimum that the recorder keeps.
    pub observe-Enclosed :
        (now : Timeval) (r : Minmax D) (xs : List (Reading D))
        → Enclosed (observe xs (reset now r)) xs
    observe-Enclosed now r [] = _
    observe-Enclosed now r (x ∷ xs) =
        let first = update x.average_at x.update_at x.reading (reset now r) in
        let later =
          observe-Enclosed_seen first (x ∷ []) xs
            (update_valid x.average_at x.update_at x.reading (reset now r))
            (Within-update x.average_at x.update_at x.reading (reset now r), _) in
        (later.0.0, later.1)
