-- ===== src/Tdata/Algebra/Laws.antt =====
-- What the operators of lib/Tdata.cc compute at a time.
use meteo.Base.{
  ℕ, ◌≤◌, ◌≡◌, refl, ◌∙◌, true, false, ◌||◌, Option, none, some, Result, ok, err, if◌then◌else◌, [],
  ltb, arith,
}
use meteo.Base.Double.{Double}
use meteo.Tdata.{Data, find, caught, Tdata}
use meteo.Tdata.Maps.{IsSorted, or_else, after, find-collect}
use meteo.Tdata.Algebra.{apply2, combine, combined}

module _ {D : Type 0} ⦃d : Double D⦄ where
  -- The value of a result at a time.
  abbrev pub at_time : Result (Tdata D) → ℕ → Option D
  at_time (ok a) t = find a.entries t
  at_time (err _) t = none

  -- The function at the values of both, where both have one and the function does not throw.
  abbrev pub pointwise : (D → D → Result D) → Option D → Option D → Option D
  pointwise func (some v) (some w) = caught (func v w)
  pointwise func _ _ = none

  or_none : (o : Option D) → or_else o none ≡ o
  or_none none = refl
  or_none (some v) = refl

  fixed :
      (func : D → D → Result D) (c : D) (t : ℕ) (o : Option D)
      → or_else (after (λ _ v. caught (func c v)) t o) none ≡ pointwise func (some c) o
  fixed func c t none = refl
  fixed func c t (some v) = or_none (caught (func c v))

  combined_inside :
      (func : D → D → Result D) (v : D) (o : Option D)
      → or_else (combined func false v o) none ≡ pointwise func (some v) o
  combined_inside func v none = refl
  combined_inside func v (some w) = or_none (caught (func v w))

  both :
      (func : D → D → Result D) (low high : ℕ) (other : Data D) (t : ℕ) (o : Option D)
      → low ≤ t
      → t ≤ high
      → or_else (after (combine func low high other) t o) none ≡ pointwise func o (find other t)
  both func low high other t none h k = refl
  both func low high other t (some v) h k =
      let inside : (ltb t low || ltb high t) ≡ false = ground arith in
      rw inside (combined_inside func v (find other t))

  -- For two data sets that are not constant, the first with ascending times: at a time in the range
  -- of the first set, the result of `apply2` has a value where both have one, that of the function,
  -- unless it throws, and no value elsewhere.
  pub at_time-apply2 :
      (func : D → D → Result D) (a b : Tdata D) (t : ℕ)
      → a.constant ≡ false
      → b.constant ≡ false
      → IsSorted a.entries
      → a.start ≤ t
      → t ≤ a.finish
      → at_time (apply2 func a b) t ≡ pointwise func (find a.entries t) (find b.entries t)
  unfolding apply2
  at_time-apply2 func a b t ca cb sorted h k =
      let low = if ltb a.start b.start then a.start else b.start in
      let high = if ltb b.finish a.finish then a.finish else b.finish in
      let collected = find-collect (combine func low high b.entries) a.entries [] t sorted in
      rw (ca, cb)
        (collected
          ∙ both func low high b.entries t (find a.entries t) (ground arith) (ground arith))

  -- For a data set with ascending times and a constant: whichever of the two is the first operand of
  -- `apply2`, the result at each time is the function of the constant, as its first argument, and
  -- the value of the set.
  pub apply2_constant :
      (func : D → D → Result D) (a b : Tdata D) (t : ℕ)
      → a.constant ≡ false
      → b.constant ≡ true
      → IsSorted a.entries
      → (at_time (apply2 func b a) t ≡ pointwise func (some b.value) (find a.entries t))
        × (at_time (apply2 func a b) t ≡ pointwise func (some b.value) (find a.entries t))
  unfolding apply2
  apply2_constant func a b t ca cb sorted =
      rw (ca, cb)
        (let collected =
            find-collect (λ _ v. caught (func b.value v)) a.entries [] t sorted
            ∙ fixed func b.value t (find a.entries t) in
          (collected, collected))
