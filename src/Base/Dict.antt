-- ===== src/Base/Dict.antt =====
-- `std::map` from texts. The order of the keys is that of the C++ library and is handed in as `before`.
use mathlib.Core.Path.{◌≡◌, refl, sym, ap, ◌∙◌}
use mathlib.Core.Logic.{inl, inr}
use mathlib.Core.Bool.{Bool}
use mathlib.Core.Option.{Option, none, some}
use mathlib.Core.List.{List, [], ◌∷◌}
use Prim.Native.String.{String}
use native.Mathlib.Omega.{arith}
use meteo.Base.Tests.{if◌then◌else◌, Bool-cases, Option-cases}
use meteo.Base.Text.{str_eq, str_eq_iff, str_eq_sym}

abbrev pub Dict : Type 0 → Type 0
Dict A = List (String × A)

module _ {A : Type 0} where
  abbrev pub find : Dict A → String → Option A
  find [] n = none
  find ((k, a) ∷ m) n = let rest = find m n in if str_eq n k then some a else rest

  -- A new entry, before the first of the keys behind it.
  abbrev pub place : (String → String → Bool) → String → A → Dict A → Dict A
  place before n a [] = (n, a) ∷ []
  place before n a ((k, b) ∷ m) =
      let rest = place before n a m in if before n k then (n, a) ∷ (k, b) ∷ m else (k, b) ∷ rest

  abbrev pub place_new : Option A → (String → String → Bool) → String → A → Dict A → Dict A
  place_new none before n a m = place before n a m
  place_new (some _) before n a m = m

  -- `insert`, which leaves an entry that is there
  abbrev pub insert : (String → String → Bool) → String → A → Dict A → Dict A
  insert before n a m = place_new (find m n) before n a m

  -- A loop over the entries that changes each.
  abbrev pub each : (String → A → A) → Dict A → Dict A
  each f [] = []
  each f ((k, a) ∷ m) = (k, f k a) ∷ each f m

  abbrev pub on : (A → A) → Option A → Option A
  on f none = none
  on f (some a) = some (f a)

  pub find-each :
      (f : String → A → A) (m : Dict A) (n : String) → find (each f m) n ≡ on (f n) (find m n)
  find-each f [] n = refl
  find-each f ((k, a) ∷ m) n = elim (Bool-cases (str_eq n k)) [
    | inl e ↦ rw (e, (str_eq_iff n k).0 e) refl
    | inr e ↦ rw e (find-each f m n)
  ]

  -- What a new entry does to what is found.
  abbrev pub with_entry : String → A → (String → Option A) → String → Option A
  with_entry k a f n = if str_eq n k then some a else f n

  pub find-place :
      (before : String → String → Bool) (k : String) (a : A) (m : Dict A) (n : String)
      → find m k ≡ none
      → find (place before k a m) n ≡ with_entry k a (find m) n
  find-place before k a [] n e = refl
  find-place before k a ((j, b) ∷ m) n e = elim (Bool-cases (str_eq k j)) [
    | inl kj ↦ let found : some b ≡ none = rw (sym e, kj) refl in absurd (ground (arith, found))
    | inr kj ↦
        let none_behind : find m k ≡ none = rw (sym e, kj) refl in
        let later = find-place before k a m n none_behind in
        elim (Bool-cases (before k j)) [
          | inl first ↦ rw first refl
          | inr behind ↦ elim (Bool-cases (str_eq n j)) [
            | inl nj ↦
                let nk = ap (λ x. str_eq x k) ((str_eq_iff n j).0 nj) ∙ str_eq_sym j k ∙ kj in
                rw (behind, nj, nk) refl
            | inr nj ↦ rw (behind, nj) later
          ]
        ]
  ]

  abbrev pub if_none : Option A → Option A → Option A → Option A
  if_none none x y = x
  if_none (some _) x y = y

  -- The entry that is there, or else the new one.
  abbrev pub with_insert : String → A → (String → Option A) → String → Option A
  with_insert k a f n = if_none (f k) (with_entry k a f n) (f n)

  pub find-insert :
      (before : String → String → Bool) (k : String) (a : A) (m : Dict A) (n : String)
      → find (insert before k a m) n ≡ with_insert k a (find m) n
  find-insert before k a m n = elim (Option-cases (find m k)) [
    | inl e ↦
        ap (λ o. find (place_new o before k a m) n) e
        ∙ find-place before k a m n e
        ∙ ap (λ o. if_none o (with_entry k a (find m) n) (find m n)) (sym e)
    | inr (b, e) ↦
        ap (λ o. find (place_new o before k a m) n) e
        ∙ ap (λ o. if_none o (with_entry k a (find m) n) (find m n)) (sym e)
  ]
