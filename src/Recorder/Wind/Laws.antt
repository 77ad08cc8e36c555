-- ===== src/Recorder/Wind/Laws.antt =====
-- The strongest wind that lib/WindRecorder.cc keeps.
use meteo.Base.{
  Bool, if◌then◌else◌, ◌≡◌, refl, true, false, List, [], ◌∷◌, All, arith, inl, inr, Bool-cases, ◌+◌,
  length,
}
use meteo.Base.Double.{Double, IsOrdered}
use meteo.Base.Extremes.{not_above_new, new_above}
use meteo.Time.Timeval.{Timeval}
use meteo.Vector.{Vector, Libm, get_abs}
use meteo.Recorder.Wind.{Wind, reset, update}

-- A vector with the two times at which the clock is read.
pub record Gust (D : Type 0) : Type 0 where
  pub average_at : Timeval
  pub update_at : Timeval
  pub vector : Vector D

module _ {D : Type 0} ⦃d : Double D⦄ ⦃c : Libm D⦄ where
  abbrev pub blow : List (Gust D) → Wind D → Wind D
  blow [] w = w
  blow (g ∷ gs) w = blow gs (update g.average_at g.update_at g.vector w)

  -- The vector is not stronger than the maximum.
  abbrev pub IsBelow : Wind D → Gust D → Type 0
  IsBelow w g = d.lt (get_abs w.max) (get_abs g.vector) ≡ false

  abs_choice :
      (b : Bool) (v m : Vector D)
      → get_abs (if b then v else m) ≡ (if b then get_abs v else get_abs m)
  abs_choice true v m = refl
  abs_choice false v m = refl

  update_valid :
      (s now : Timeval) (v : Vector D) (w : Wind D) → (update s now v w).basic.isvalid ≡ true
  unfolding update
  update_valid s now v w = elim (Bool-cases w.basic.isvalid) [
    | inl valid ↦ rw valid refl
    | inr invalid ↦ rw invalid refl
  ]

  counted_updates :
      (w : Wind D) (gs : List (Gust D))
      → w.basic.isvalid ≡ true
      → (blow gs w).samples ≡ w.samples + length gs
  unfolding update
  counted_updates w [] valid = omega arith
  counted_updates w (g ∷ gs) valid =
      let next = update g.average_at g.update_at g.vector w in
      let one : next.samples ≡ w.samples + 1 = rw valid refl in
      omega (arith, one, counted_updates next gs (update_valid g.average_at g.update_at g.vector w))

  module _ (laws : IsOrdered D) where
    open laws use {lt_irrefl}

    -- The maximum that an update chooses.
    abbrev pub stronger : Vector D → Vector D → Vector D
    stronger m v = if d.lt (get_abs m) (get_abs v) then v else m

    update-IsBelow :
        (s now : Timeval) (v : Vector D) (g : Gust D) (w : Wind D)
        → w.basic.isvalid ≡ true
        → IsBelow w g
        → IsBelow (update s now v w) g
    unfolding update
    update-IsBelow s now v g w valid below =
        rw (valid, abs_choice (d.lt (get_abs w.max) (get_abs v)) v w.max)
          (not_above_new laws (get_abs w.max) (get_abs v) (get_abs g.vector) below)

    IsBelow-update :
        (s now : Timeval) (g : Gust D) (w : Wind D) → IsBelow (update s now g.vector w) g
    unfolding update
    IsBelow-update s now g w = elim (Bool-cases w.basic.isvalid) [
      | inl valid ↦
          rw (valid, abs_choice (d.lt (get_abs w.max) (get_abs g.vector)) g.vector w.max)
            (new_above laws (get_abs w.max) (get_abs g.vector))
      | inr invalid ↦ rw invalid (lt_irrefl (get_abs g.vector))
    ]

    update_keeps :
        (s now : Timeval) (v : Vector D) (w : Wind D) (seen : List (Gust D))
        → w.basic.isvalid ≡ true
        → All (IsBelow w) seen
        → All (IsBelow (update s now v w)) seen
    update_keeps s now v w [] valid _ = _
    update_keeps s now v w (g ∷ seen) valid (h, hs) =
        (update-IsBelow s now v g w valid h, update_keeps s now v w seen valid hs)

    blow_keeps :
        (w : Wind D) (seen gs : List (Gust D))
        → w.basic.isvalid ≡ true
        → All (IsBelow w) seen
        → All (IsBelow (blow gs w)) seen × All (IsBelow (blow gs w)) gs
    blow_keeps w seen [] valid hs = (hs, _)
    blow_keeps w seen (g ∷ gs) valid hs =
        let s = g.average_at in
        let now = g.update_at in
        let ((p, ps), qs) =
          blow_keeps (update s now g.vector w) (g ∷ seen) gs (update_valid s now g.vector w)
            (IsBelow-update s now g w, update_keeps s now g.vector w seen valid hs) in
        (ps, (p, qs))

    -- Where `<` is irreflexive and transitive: after a reset and one or more updates, no reading of the
    -- interval is stronger than the maximum that the recorder keeps, and `samples` is the count of the
    -- readings behind the first.
    pub blow-reset :
        (at : Timeval) (w : Wind D) (g : Gust D) (gs : List (Gust D))
        → All (IsBelow (blow (g ∷ gs) (reset at w))) (g ∷ gs)
          × ((blow (g ∷ gs) (reset at w)).samples ≡ length gs)
    unfolding reset update
    blow-reset at w g gs =
        let first = update g.average_at g.update_at g.vector (reset at w) in
        let valid = update_valid g.average_at g.update_at g.vector (reset at w) in
        let (p, qs) =
          blow_keeps first (g ∷ []) gs valid
            (IsBelow-update g.average_at g.update_at g (reset at w), _) in
        ((p.0, qs), omega (arith, counted_updates first gs valid))
