-- ===== src/Tdata/Algebra.antt =====
-- lib/Tdata.cc: the operations that combine two sets of data.
pub mod Laws
use meteo.Base.{
  ℕ, ◌-◌, ◌%◌, Bool, true, false, ◌||◌, Option, none, some, Result, ok, err, ◌>>=◌, if◌then◌else◌,
  List, [], ◌∷◌, ltb, division_by_zero,
}
use meteo.Base.Int.{ℤ, pos}
use meteo.Base.Double.{Double}
use meteo.Tdata.{Data, find, collect, caught, Tdata, of_value, of_range}

module _ {D : Type 0} ⦃d : Double D⦄ where
  -- The body of the last loop of `apply2`.
  abbrev pub combined : (D → D → Result D) → Bool → D → Option D → Option D
  combined func outside v none = none
  combined func outside v (some w) = if outside then none else caught (func v w)

  abbrev pub combine : (D → D → Result D) → ℕ → ℕ → Data D → ℕ → D → Option D
  combine func low high other t v = combined func (ltb t low || ltb high t) v (find other t)

  -- apply2; the intervals are compared without effect.
  unfoldable pub apply2 : (D → D → Result D) → Tdata D → Tdata D → Result (Tdata D)
  apply2 func a b =
      let low = if ltb a.start b.start then a.start else b.start in
      let high = if ltb b.finish a.finish then a.finish else b.finish in
      if a.constant
      then (if b.constant
          then (func a.value b.value >>= λ v. ok (of_value v))
          else ok record (of_range b.interval b.start b.finish) {
            entries = collect (λ _ v. caught (func a.value v)) b.entries [];
          })
      else (if b.constant
          then ok record (of_range a.interval a.start a.finish) {
            entries = collect (λ _ v. caught (func b.value v)) a.entries [];
          }
          else ok record (of_range a.interval low high) {
            entries = collect (combine func low high b.entries) a.entries [];
          })

  -- The operators that `apply2` is called with.
  abbrev pub operatorplus : D → D → Result D
  operatorplus a b = ok (d.add a b)

  abbrev pub operatorminus : D → D → Result D
  operatorminus a b = ok (d.sub a b)

  abbrev pub operatortimes : D → D → Result D
  operatortimes a b = ok (d.mul a b)

  abbrev pub operatorquotient : D → D → Result D
  operatorquotient a b = if d.eq b (d.lit (pos 0) 0) then err division_by_zero else ok (d.div a b)

  abbrev pub operatormax : D → D → Result D
  operatormax a b = ok (if d.lt b a then a else b)

  abbrev pub operatormin : D → D → Result D
  operatormin a b = ok (if d.lt a b then a else b)
