-- ===== src/Tdata/Series.antt =====
-- lib/Tdata.cc: the operations on one set of data.
pub mod Laws
use meteo.Base.{
  ℕ, zero, suc, ◌+◌, ◌-◌, ◌%◌, Bool, true, false, Option, none, some, Result, ok, err,
  if◌then◌else◌, List, [], ◌∷◌, ltb, leb, ◌==◌, field_not_found,
}
use meteo.Base.Int.{ℤ, pos, negsuc}
use meteo.Base.Double.{Double}
use meteo.Tdata.{Data, find, insert, put, collect, caught, Tdata, times, of_range}

module _ {D : Type 0} ⦃d : Double D⦄ where
  -- Tdata::addData
  abbrev pub add_each : Data D → List ℕ → Data D → Data D
  add_each input [] m = m
  add_each input (t ∷ ts) m = add_each input ts (put (find input t) t m)

  unfoldable pub add_data : Data D → Tdata D → Tdata D
  add_data input a = record a { entries = add_each input (times a) a.entries }

  of_option : Option D → Result D
  of_option none = err field_not_found
  of_option (some v) = ok v

  -- Tdata::operator()
  unfoldable pub at : ℕ → Tdata D → Result D
  unfolding of_option
  at t a = if a.constant then ok a.value else of_option (find a.entries t)

  abbrev emptied : Tdata D → Data D → Tdata D
  emptied a m = record (of_range a.interval a.start a.finish) { entries = m }

  -- Tdata::apply
  pub apply : (D → Result D) → Tdata D → Tdata D
  apply func a = emptied a (collect (λ _ v. caught (func v)) a.entries [])

  -- Tdata::floor and Tdata::ceil, with the operators they apply
  unfoldable pub floor : D → Tdata D → Tdata D
  unfolding apply
  floor l a = apply (λ v. ok (if d.lt v l then l else v)) a

  unfoldable pub ceil : D → Tdata D → Tdata D
  unfolding apply
  ceil l a = apply (λ v. ok (if d.lt v l then v else l)) a

  unfoldable pub sqr : Tdata D → Tdata D
  unfolding apply
  sqr a = apply (λ v. ok (d.mul v v)) a

  -- Tdata::accumulate
  sum_each : Data D → List ℕ → D → Data D → Data D
  sum_each m [] acc out = out
  sum_each m (t ∷ ts) acc out = elim (find m t) [
    | none ↦ sum_each m ts acc (insert t acc out)
    | some v ↦ sum_each m ts (d.add acc v) (insert t (d.add acc v) out)
  ]

  unfoldable pub accumulate : Tdata D → Tdata D
  unfolding sum_each
  accumulate a = emptied a (sum_each a.entries (times a) (d.lit (pos 0) 0) [])

  -- Tdata::limit; std::remove_copy_if leaves out what the limiter holds of.
  pub limit : D → Tdata D → Tdata D
  limit l a = emptied a (collect (λ _ v. if d.lt v l then none else some v) a.entries [])

  -- Tdata::max, by std::max_element, and Tdata::min
  largest : D → Data D → D
  largest m [] = m
  largest m ((_, v) ∷ rest) = largest (if d.lt m v then v else m) rest

  smallest : D → Data D → D
  smallest m [] = m
  smallest m ((_, v) ∷ rest) = smallest (if d.lt v m then v else m) rest

  max_of : Data D → D
  unfolding largest
  max_of [] = d.lit (negsuc 9999999) 0
  max_of ((_, v) ∷ m) = largest v m

  min_of : Data D → D
  unfolding smallest
  min_of [] = d.lit (pos 10000000) 0
  min_of ((_, v) ∷ m) = smallest v m

  pub max : Tdata D → D
  unfolding max_of
  max a = max_of a.entries

  unfoldable pub min : Tdata D → D
  unfolding min_of
  min a = min_of a.entries

  -- Tdata::avg
  total : Data D → D → D
  total [] s = s
  total ((_, v) ∷ m) s = total m (d.add s v)

  count : Data D → ℕ
  count [] = 0
  count (_ ∷ m) = suc (count m)

  unfoldable pub avg : Tdata D → D
  unfolding total count
  avg a =
      if count a.entries == 0
      then d.lit (pos 0) 0
      else d.div (total a.entries (d.lit (pos 0) 0)) (d.of_int (pos (count a.entries)))
