-- ===== src/Tdata/Series/Laws.antt =====
-- The contents of the data sets that the operations of lib/Tdata.cc make.
use meteo.Base.{
  ℕ, zero, suc, ◌+◌, ◌-◌, ◌*◌, ◌≤◌, ◌≡◌, ◌↔◌, refl, sym, ◌∙◌, ap, Bool, true, false, ◌||◌, ◌&&◌,
  Option, none, some, if◌then◌else◌, List, [], ◌∷◌, All, leb, ◌==◌, arith, inl, inr, Bool-cases,
  ==_iff, leb→le,
}
use meteo.Base.Double.{Double, IsOrdered}
use meteo.Base.Extremes.{not_above_new, new_above}
use meteo.Tdata.{Data, find, put, slots, Tdata, times}
use meteo.Tdata.Maps.{IsSorted, or_else, after, find-put, find-collect}
use meteo.Tdata.Series.{add_each, add_data, limit, max, max_of, largest}

abbrev mem : ℕ → List ℕ → Bool
mem t [] = false
mem t (s ∷ ts) = (t == s) || mem t ts

module _ {D : Type 0} ⦃d : Double D⦄ where
  abbrev merged : Bool → Option D → Option D → Option D
  merged b new old = if b then or_else new old else old

  merged_twice : (b : Bool) (new old : Option D) → merged b new (or_else new old) ≡ or_else new old
  merged_twice true none old = refl
  merged_twice true (some v) old = refl
  merged_twice false new old = refl

  find-add_each :
      (input : Data D) (ts : List ℕ) (m : Data D) (t : ℕ)
      → find (add_each input ts m) t ≡ merged (mem t ts) (find input t) (find m t)
  find-add_each input [] m t = refl
  find-add_each input (s ∷ ts) m t =
      find-add_each input ts (put (find input s) s m) t
      ∙ ap (merged (mem t ts) (find input t)) (find-put (find input s) s m t)
      ∙ elim (Bool-cases (t == s)) [
        | inl same ↦
            let e = (==_iff t s).0 same in
            rw same (
              ap (λ (j : ℕ). merged (mem t ts) (find input t) (or_else (find input j) (find m t)))
                (sym e)
              ∙ merged_twice (mem t ts) (find input t) (find m t))
        | inr other ↦ rw other refl
      ]

-- A time that the loops come to.
abbrev pub IsSlot : ℕ → ℕ → ℕ → ℕ → Type 0
IsSlot s finish interval t = (k : ℕ) × ((t ≡ s + k * interval) × (t ≤ finish))

next_slot : (s k i : ℕ) → s + suc k * i ≡ (s + i) + k * i
next_slot s k i = grind arith

mem-slots :
    (n s finish i t : ℕ)
    → mem t (slots (suc n) s finish i)
      ≡ leb s finish && ((t == s) || mem t (slots n (s + i) finish i))
mem-slots n s finish i t = elim (Bool-cases (leb s finish)) [
  | inl on ↦ rw on refl
  | inr over ↦ rw over refl
]

slot-mem :
    (n s finish i k t : ℕ)
    → 1 ≤ i
    → finish + 1 ≤ s + n
    → t ≡ s + k * i
    → t ≤ finish
    → mem t (slots n s finish i) ≡ true
slot-mem zero s finish i k t hi enough e h = absurd (grind arith)
slot-mem (suc n) s finish i zero t hi enough e h =
    let same : t ≡ s = e ∙ grind arith in rw (mem-slots n s finish i t) (ground arith)
slot-mem (suc n) s finish i (suc k) t hi enough e h =
    let e' = e ∙ next_slot s k i in
    let rest = slot-mem n (s + i) finish i k t hi (omega arith) e' h in
    rw (mem-slots n s finish i t, rest) (ground arith)

mem-IsSlot : (n s finish i t : ℕ) → mem t (slots n s finish i) ≡ true → IsSlot s finish i t
mem-IsSlot zero s finish i t h = absurd (ground arith)
mem-IsSlot (suc n) s finish i t h =
    let rest = mem-IsSlot n (s + i) finish i t in
    let split = sym (mem-slots n s finish i t) ∙ h in
    elim (Bool-cases (t == s)) [
      | inl same ↦
          let e = (==_iff t s).0 same in
          let on : leb s finish ≡ true = ground arith in
          let below = leb→le s finish on in (0, (e ∙ grind arith, omega arith))
      | inr other ↦
          let later : mem t (slots n (s + i) finish i) ≡ true = ground arith in
          let found = rest later in
          (suc found.0, (found.1.0 ∙ sym (next_slot s found.0 i), found.1.1))
    ]

module _ {D : Type 0} ⦃d : Double D⦄ where
  -- With an interval of one or more, `add_data` replaces the value at each time of the grid that the
  -- input has a value for, and changes nothing else: between the start and the finish, the grid is
  -- the times start + k * interval.
  pub find-add_data :
      (input : Data D) (a : Tdata D) (t : ℕ)
      → 1 ≤ a.interval
      → (IsSlot a.start a.finish a.interval t
          → find (add_data input a).entries t ≡ or_else (find input t) (find a.entries t))
        × (¬ IsSlot a.start a.finish a.interval t
            → find (add_data input a).entries t ≡ find a.entries t)
  unfolding add_data
  find-add_data input a t hi =
      let each = find-add_each input (times a) a.entries t in
      let fuel = a.finish + 1 - a.start in
      let on = λ (slot : IsSlot a.start a.finish a.interval t).
        slot-mem fuel a.start a.finish a.interval slot.0 t hi (omega arith) slot.1.0 slot.1.1 in
      (
        λ slot. each ∙ ap (λ (b : Bool). merged b (find input t) (find a.entries t)) (on slot),
        λ off. elim (Bool-cases (mem t (times a))) [
          | inl hit ↦ absurd (off (mem-IsSlot fuel a.start a.finish a.interval t hit))
          | inr miss ↦ each ∙ ap (λ (b : Bool). merged b (find input t) (find a.entries t)) miss
        ],
      )

  abbrev not_limited : D → ℕ → D → Option D
  not_limited l _ v = if d.lt v l then none else some v

  not_limited_iff :
      (l v : D) (t : ℕ) (o : Option D)
      → (or_else (after (not_limited l) t o) none ≡ some v) ↔ ((o ≡ some v) × (d.lt v l ≡ false))
  not_limited_iff l v t none = (λ h. absurd (cc h), λ (h, _). absurd (cc h))
  not_limited_iff l v t (some w) = elim (Bool-cases (d.lt w l)) [
    | inl less ↦ rw less (λ h. absurd (cc h), λ h. absurd (cc (h.0, h.1, less)))
    | inr keep ↦ rw keep (λ h. (h, cc (h, keep)), λ h. h.0)
  ]

  -- Of a data set with ascending times, `limit` keeps exactly the values that are not below the
  -- limit.
  pub find-limit :
      (l : D) (a : Tdata D) (t : ℕ) (v : D)
      → IsSorted a.entries
      → (find (limit l a).entries t ≡ some v) ↔ ((find a.entries t ≡ some v) × (d.lt v l ≡ false))
  unfolding limit
  find-limit l a t v sorted =
      let e = find-collect (not_limited l) a.entries [] t sorted in
      rw e (not_limited_iff l v t (find a.entries t))

  module _ (laws : IsOrdered D) where
    largest_up : (m x : D) (ms : Data D) → d.lt m x ≡ false → d.lt (largest m ms) x ≡ false
    unfolding largest
    largest_up m x [] h = h
    largest_up m x ((k, v) ∷ ms) h =
        largest_up (if d.lt m v then v else m) x ms (not_above_new laws m v x h)

    largest-All : (m : D) (ms : Data D) → All (λ e. d.lt (largest m ms) e.1 ≡ false) ms
    unfolding largest
    largest-All m [] = _
    largest-All m ((k, v) ∷ ms) =
        let next = if d.lt m v then v else m in
        (largest_up next v ms (new_above laws m v), largest-All next ms)

    max_of-All : (ms : Data D) → All (λ e. d.lt (max_of ms) e.1 ≡ false) ms
    unfolding max_of
    max_of-All [] = _
    max_of-All ((k, v) ∷ ms) = (largest_up v v ms (laws.lt_irrefl v), largest-All v ms)

    -- Where `<` is irreflexive and transitive, no value of a data set is above its maximum.
    pub max-All : (a : Tdata D) → All (λ e. d.lt (max a) e.1 ≡ false) a.entries
    unfolding max
    max-All a = max_of-All a.entries
