-- ===== src/Tdata/Maps.antt =====
-- Lookup and insertion in the maps that lib/Tdata.cc keeps.
use meteo.Base.{
  ℕ, ◌<◌, ◌≡◌, refl, sym, ◌∙◌, ap, Option, none, some, if◌then◌else◌, [], ◌∷◌, All, ltb, ◌==◌,
  arith, inl, inr, Bool-cases, ==_iff, ltb→lt,
}
use mathlib.Core.Path.{subst}
use meteo.Tdata.{Data, find, insert, put, collect}

module _ {D : Type 0} where
  -- The keys ascend.
  abbrev pub IsSorted : Data D → Type 0
  IsSorted [] = Unit
  IsSorted ((k, _) ∷ m) = All (λ e. k < e.0) m × IsSorted m

  abbrev pub or_else : Option D → Option D → Option D
  or_else none o = o
  or_else (some v) _ = some v

  pub find-insert :
      (k : ℕ) (v : D) (m : Data D) (t : ℕ)
      → find (insert k v m) t ≡ (if t == k then some v else find m t)
  find-insert k v [] t = refl
  find-insert k v ((j, w) ∷ m) t = ground (arith, find-insert k v m t)

  pub find-put :
      (o : Option D) (k : ℕ) (m : Data D) (t : ℕ)
      → find (put o k m) t ≡ (if t == k then or_else o (find m t) else find m t)
  find-put none k m t = elim (Bool-cases (t == k)) [
    | inl same ↦ rw same refl
    | inr other ↦ rw other refl
  ]
  find-put (some v) k m t = find-insert k v m t

  pub find-above : (k : ℕ) (m : Data D) → All (λ e. k < e.0) m → find m k ≡ none
  find-above k [] _ = refl
  find-above k ((j, w) ∷ m) (h, hs) = ground (arith, find-above k m hs)

  abbrev pub after : (ℕ → D → Option D) → ℕ → Option D → Option D
  after g t none = none
  after g t (some v) = g t v

  collect_step :
      (g : ℕ → D → Option D) (k : ℕ) (v : D) (m : Data D) (o : Option D) (t : ℕ)
      → All (λ e. k < e.0) m
      → or_else (after g t (find m t)) (if t == k then or_else (g k v) o else o)
        ≡ or_else (after g t (if t == k then some v else find m t)) o
  collect_step g k v m o t above = elim (Bool-cases (t == k)) [
    | inl same ↦
        let e = (==_iff t k).0 same in
        rw same (
          ap (λ (f : Option D). or_else (after g t f) (or_else (g k v) o))
            (ap (find m) e ∙ find-above k m above)
          ∙ ap (λ (j : ℕ). or_else (g j v) o) (sym e))
    | inr other ↦ rw other refl
  ]

  -- The loops over a map look each time up once.
  pub find-collect :
      (g : ℕ → D → Option D) (m out : Data D) (t : ℕ)
      → IsSorted m
      → find (collect g m out) t ≡ or_else (after g t (find m t)) (find out t)
  find-collect g [] out t _ = refl
  find-collect g ((k, v) ∷ m) out t (above, sorted) =
      find-collect g m (put (g k v) k out) t sorted
      ∙ ap (or_else (after g t (find m t))) (find-put (g k v) k out t)
      ∙ collect_step g k v m (find out t) t above

  insert-above :
      (k j : ℕ) (v : D) (m : Data D)
      → j < k
      → All (λ e. j < e.0) m
      → All (λ e. j < e.0) (insert k v m)
  insert-above k j v [] h _ = (h, _)
  insert-above k j v ((i, w) ∷ m) h (hi, hs) =
      let rest = insert-above k j v m h hs in
      elim (Bool-cases (ltb k i)) [
        | inl less ↦ rw less (h, (hi, hs))
        | inr not_less ↦ elim (Bool-cases (k == i)) [
          | inl same ↦ rw (not_less, same) (h, hs)
          | inr other ↦ rw (not_less, other) (hi, rest)
        ]
      ]

  below-All : (j k : ℕ) (m : Data D) → j < k → All (λ e. k < e.0) m → All (λ e. j < e.0) m
  below-All j k [] h _ = _
  below-All j k ((i, w) ∷ m) h (hi, hs) = (omega arith, below-All j k m h hs)

  pub insert-IsSorted : (k : ℕ) (v : D) (m : Data D) → IsSorted m → IsSorted (insert k v m)
  insert-IsSorted k v [] _ = (_, _)
  insert-IsSorted k v ((i, w) ∷ m) (above, sorted) =
      let rest = insert-IsSorted k v m sorted in
      elim (Bool-cases (ltb k i)) [
        | inl less ↦
            let h = ltb→lt k i less in rw less ((h, below-All k i m h above), (above, sorted))
        | inr not_less ↦ elim (Bool-cases (k == i)) [
          | inl same ↦
              let e = (==_iff k i).0 same in
              rw (not_less, same) (subst (λ (x : ℕ). All (λ e. x < e.0) m) (sym e) above, sorted)
          | inr other ↦
              let h : i < k = ground arith in
              rw (not_less, other) (insert-above k i v m h above, rest)
        ]
      ]

  pub put-IsSorted : (o : Option D) (k : ℕ) (m : Data D) → IsSorted m → IsSorted (put o k m)
  put-IsSorted none k m h = h
  put-IsSorted (some v) k m h = insert-IsSorted k v m h

  pub collect-IsSorted :
      (g : ℕ → D → Option D) (m out : Data D) → IsSorted out → IsSorted (collect g m out)
  collect-IsSorted g [] out h = h
  collect-IsSorted g ((k, v) ∷ m) out h =
      collect-IsSorted g m (put (g k v) k out) (put-IsSorted (g k v) k out h)
