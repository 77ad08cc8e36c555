-- ===== src/Base/Extremes.antt =====
-- A running maximum and minimum over doubles, which all recorders and data sets keep.
use meteo.Base.Tests.{Bool-cases, if◌then◌else◌}
use mathlib.Core.Path.{◌≡◌}
use mathlib.Core.Logic.{inl, inr}
use mathlib.Core.Bool.{false}
use meteo.Base.Double.{Double, IsOrdered}

module _ {D : Type 0} ⦃d : Double D⦄ (laws : IsOrdered D) where
  open laws use {lt_irrefl, lt_trans}

  pub not_above_new : (m v x : D) → d.lt m x ≡ false → d.lt (if d.lt m v then v else m) x ≡ false
  not_above_new m v x h = elim (Bool-cases (d.lt m v)) [
    | inl up ↦ elim (Bool-cases (d.lt v x)) [
      | inl more ↦ absurd (cc (lt_trans m v x up more, h))
      | inr keep ↦ rw up keep
    ]
    | inr keep ↦ rw keep h
  ]

  pub not_below_new : (m v x : D) → d.lt x m ≡ false → d.lt x (if d.lt v m then v else m) ≡ false
  not_below_new m v x h = elim (Bool-cases (d.lt v m)) [
    | inl down ↦ elim (Bool-cases (d.lt x v)) [
      | inl less ↦ absurd (cc (lt_trans x v m less down, h))
      | inr keep ↦ rw down keep
    ]
    | inr keep ↦ rw keep h
  ]

  pub new_above : (m v : D) → d.lt (if d.lt m v then v else m) v ≡ false
  new_above m v = elim (Bool-cases (d.lt m v)) [
    | inl up ↦ rw up (lt_irrefl v)
    | inr keep ↦ rw keep keep
  ]

  pub new_below : (m v : D) → d.lt v (if d.lt v m then v else m) ≡ false
  new_below m v = elim (Bool-cases (d.lt v m)) [
    | inl down ↦ rw down (lt_irrefl v)
    | inr keep ↦ rw keep keep
  ]
