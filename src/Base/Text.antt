-- ===== src/Base/Text.antt =====
-- Texts that the code only compares.
use Prim.Native.String.{String}
use mathlib.Core.Path.{◌≡◌, sym, ◌∙◌}
use mathlib.Core.Logic.{◌↔◌, ◌≢◌, inl, inr}
use mathlib.Core.Bool.{Bool, true, false}
use meteo.Base.Tests.{Bool-cases}
use text.Mathlib.Text.{◌==◌ as text_eq}
use text.Mathlib.TextEquality.{eq_iff}

-- `a == b` of two texts.
abbrev pub str_eq : String → String → Bool
str_eq a b = text_eq a b

pub str_eq_iff : (a b : String) → (str_eq a b ≡ true) ↔ (a ≡ b)
str_eq_iff a b = eq_iff a b

pub str_eq_sym : (a b : String) → str_eq a b ≡ str_eq b a
str_eq_sym a b = elim (Bool-cases (str_eq a b)) [
  | inl h ↦ h ∙ sym ((str_eq_iff b a).1 (sym ((str_eq_iff a b).0 h)))
  | inr h ↦ elim (Bool-cases (str_eq b a)) [
    | inl k ↦ (str_eq_iff a b).1 (sym ((str_eq_iff b a).0 k)) ∙ sym k
    | inr k ↦ h ∙ sym k
  ]
]

pub str_eq_other : (a b : String) → a ≢ b → str_eq a b ≡ false
str_eq_other a b h = elim (Bool-cases (str_eq a b)) [
  | inl same ↦ absurd (h ((str_eq_iff a b).0 same))
  | inr other ↦ other
]
