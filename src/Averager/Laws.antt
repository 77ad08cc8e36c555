-- ===== src/Averager/Laws.antt =====
-- How the averaging groups of lib/Averager.cc divide the samples.
use native.Mathlib.Nat.{add-mod_right, mod-lt, mod-le}
use meteo.Base.{ℕ, ◌+◌, ◌-◌, ◌%◌, ◌≤◌, ◌<◌, ◌≡◌, ◌↔◌, ◌∙◌, ap, true, not, ◌&&◌, arith}
use meteo.Base.Int.{ℤ, pos, pos_part, neg_part, ltb_ℤ, ◌+ℤ◌, ◌-ℤ◌, +ℤ_parts, -ℤ_parts, eq_of_parts}
use meteo.Averager.{group_info, selects}

-- The groups of two neighbouring keys.
next_key : (k i : ℕ) → (k + i) - (k + i) % i ≡ (k - k % i) + i
next_key k i = let e = add-mod_right k i in let h = mod-le k i in omega arith

-- Two ranges of which one begins where the other ends.
neighbours :
    (s f g t : ℤ) (i : ℕ)
    → 1 ≤ i
    → pos_part f + neg_part s ≡ pos_part s + neg_part f + i
    → pos_part g + neg_part f ≡ pos_part f + neg_part g + i
    → (((not (ltb_ℤ t s) && not (ltb_ℤ f t)) && (not (ltb_ℤ t f) && not (ltb_ℤ g t))) ≡ true)
      ↔ (t ≡ f)
neighbours s f g t i hi first second = (
  λ h. eq_of_parts t f (ground arith),
  λ e. let p = ap pos_part e in let n = ap neg_part e in ground arith,
)

shift : (a i : ℕ) (o : ℤ) → pos (a + i) -ℤ o ≡ (pos a -ℤ o) +ℤ pos i
shift a i o = grind (arith, +ℤ_parts, -ℤ_parts, eq_of_parts)

own_group :
    (key rest i k : ℕ) (o : ℤ)
    → key + rest ≡ k
    → rest < i
    → (not (ltb_ℤ (pos k -ℤ o) (pos key -ℤ o))
        && not (ltb_ℤ ((pos key -ℤ o) +ℤ pos i) (pos k -ℤ o)))
      ≡ true
own_group key rest i k o e lt =
    let at = -ℤ_parts (pos k) o in
    let low = -ℤ_parts (pos key) o in let high = +ℤ_parts (pos key -ℤ o) (pos i) in ground arith

-- For an interval of one or more, a time is taken for two neighbouring groups exactly if it is the
-- end of the first; and each time that is not negative with the offset added is taken for its own
-- group.
pub selects_twice :
    (k i : ℕ) (o t : ℤ)
    → 1 ≤ i
    → ((selects (group_info k i o) t && selects (group_info (k + i) i o) t ≡ true)
        ↔ (t ≡ (group_info k i o).time_to))
      × (selects (group_info k i o) (pos k -ℤ o) ≡ true)
selects_twice k i o t hi =
    let key = k - k % i in
    let s = pos key -ℤ o in
    let f = s +ℤ pos i in
    let next = ap (λ (x : ℕ). pos x -ℤ o) (next_key k i) ∙ shift key i o in
    let first = +ℤ_parts s (pos i) in
    let second = +ℤ_parts f (pos i) in
    (
      rw next (neighbours s f (f +ℤ pos i) t i hi (omega arith) (omega arith)),
      own_group key (k % i) i (k) o (omega (arith, mod-le k i)) (mod-lt k (omega arith)),
    )
