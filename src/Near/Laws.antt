-- ===== src/Near/Laws.antt =====
-- What is in the record that nearRecord of lib/QueryProcessor.cc returns.
use meteo.Base.{
  ◌≡◌, refl, sym, ap, ◌∙◌, true, List, [], ◌∷◌, Option, none, some, Result, ok, err, ◌>>=◌,
  if◌then◌else◌, String, inl, inr, ℕ, arith,
}
use mathlib.Core.Path.{subst}
use meteo.Base.Text.{str_eq}
use meteo.Base.Dict.{find}
use meteo.Base.Int.{ℤ, pos}
use meteo.Base.Double.{Double}
use meteo.Vector.{Libm, polar}
use meteo.Value.Quantity.{Quantity, of_vector}
use meteo.Tdata.Maps.{or_else}
use meteo.Near.{
  Datarecord, FieldRow, NearState, row_kind, put_field, take_as, row_value, take_rows, wind_value,
  with_wind, start_state, record_of, get_field, found_field,
}
use meteo.Near.Rows.{
  or_none, result_or, Result-cases, entry_as, speed_as, direction_as, Matches, put_field-find,
  take_as-Matches,
}

module _ {D : Type 0} ⦃d : Double D⦄ ⦃c : Libm D⦄ (azi : D) (fq_name : ℕ → ℕ → Result String) where
  -- What a row says, by the lookup of its name.
  abbrev pub row_entry : FieldRow D → Result String → String → Option (Quantity D)
  row_entry r (err e) n = none
  row_entry r (ok k) n = entry_as (row_kind r) k (row_value azi fq_name r) n

  abbrev pub named_speed :
      FieldRow D → Result String → Option (String × FieldRow D) → Option (String × FieldRow D)
  named_speed r (err e) o = o
  named_speed r (ok k) o = speed_as (row_kind r) k r o

  -- The value of the first row of a name, the last row of a wind speed and the last direction, where there was
  -- something before.
  abbrev pub field_value : List (FieldRow D) → Option (Quantity D) → String → Option (Quantity D)
  field_value [] o n = o
  field_value (r ∷ rs) o n =
      field_value rs (or_else o (row_entry r (fq_name r.sensorid r.mfieldid) n)) n

  abbrev pub last_speed :
      List (FieldRow D) → Option (String × FieldRow D) → Option (String × FieldRow D)
  last_speed [] o = o
  last_speed (r ∷ rs) o = last_speed rs (named_speed r (fq_name r.sensorid r.mfieldid) o)

  abbrev pub last_direction : List (FieldRow D) → D → D
  last_direction [] z = z
  last_direction (r ∷ rs) z = last_direction rs (direction_as (row_kind r) r z)

  abbrev pub wind_entry : Option (String × FieldRow D) → D → String → Option (Quantity D)
  wind_entry none z n = none
  wind_entry (some (k, r)) z n =
      if str_eq n k
      then some (of_vector (polar r.amount (d.of_int (d.trunc z)) true) r.unit)
      else none

  abbrev Follows : List (FieldRow D) → Type 0
  Follows rs =
      (s s' : NearState D) (g : String → Option (Quantity D)) (o : Option (String × FieldRow D))
      (z : D)
      → Matches g o z s
      → take_rows azi fq_name rs s ≡ ok s'
      → Matches (λ n. field_value rs (g n) n) (last_speed rs o) (last_direction rs z) s'

  row-Matches :
      (r : FieldRow D) (rs : List (FieldRow D)) (q : Result String) (s s' : NearState D)
      (g : String → Option (Quantity D)) (o : Option (String × FieldRow D)) (z : D)
      → Follows rs
      → Matches g o z s
      → (q >>= λ n. take_as azi fq_name (row_kind r) n r (row_value azi fq_name r) s)
          >>= take_rows azi fq_name rs
        ≡ ok s'
      → Matches
          (λ n. field_value rs (or_else (g n) (row_entry r q n)) n)
          (last_speed rs (named_speed r q o))
          (last_direction rs (direction_as (row_kind r) r z))
          s'
  row-Matches r rs (err x) s s' g o z later m e = absurd (ground (arith, e))
  row-Matches r rs (ok k) s s' g o z later m e =
      let step = take_as azi fq_name (row_kind r) k r (row_value azi fq_name r) s in
      elim (Result-cases step) [
        | inl (s1, taken) ↦
            later s1 s' (λ n. or_else (g n) (entry_as (row_kind r) k (row_value azi fq_name r) n))
              (speed_as (row_kind r) k r o) (direction_as (row_kind r) r z)
              (take_as-Matches azi fq_name (row_kind r) k r (row_value azi fq_name r) s s1 g o z m
                taken)
              (ap (λ x. x >>= take_rows azi fq_name rs) (sym taken) ∙ e)
        | inr (x, thrown) ↦
            let clash : err x ≡ ok s' = ap (λ x. x >>= take_rows azi fq_name rs) (sym thrown) ∙ e in
            absurd (ground (arith, clash))
      ]

  take_rows-Matches : (rs : List (FieldRow D)) → Follows rs
  take_rows-Matches [] s s' g o z m e = subst (Matches g o z) (ap (result_or s) e) m
  take_rows-Matches (r ∷ rs) s s' g o z m e =
      row-Matches r rs (fq_name r.sensorid r.mfieldid) s s' g o z (take_rows-Matches rs) m e

  with_wind-find :
      (s : NearState D) (g : String → Option (Quantity D)) (o : Option (String × FieldRow D))
      (z : D) (rec : Datarecord D) (n : String)
      → Matches g o z s
      → with_wind azi fq_name s ≡ ok rec
      → find rec.data_map n ≡ or_else (g n) (wind_entry o z n)
  with_wind-find s g none z rec n (fields, calm, dir) e =
      let kept : ◌≡◌ {A = Result (Datarecord D)} (ok s.result) (ok rec) = rw (sym e, calm) refl in
      let same : s.result ≡ rec = ap (result_or s.result) kept in
      ap (λ x. find x.data_map n) (sym same) ∙ fields n ∙ sym (or_none (g n))
  with_wind-find s g (some (k, r)) z rec n (fields, (windy, speed, unit, name), dir) e =
      let put : put_field s.windname (wind_value azi fq_name s) s.result ≡ ok rec =
        rw (sym e, windy) refl in
      put_field-find s.windname (wind_value azi fq_name s) s.result rec n put
      ∙ rw (fields n, speed, unit, name, dir) refl

  -- Where the rows of a time make a record: what it gives for a name is the value that the factory makes of the first
  -- row of that name with a class, other than wind speeds and directions, or else, for the name of the last
  -- wind speed, the wind of that speed and the last direction, which is 0 where there is none, in whatever order
  -- the two come, and for every other name an exception.
  pub get_field-record_of :
      (left : D) (timekey : ℤ) (rows : List (FieldRow D)) (rec : Datarecord D) (n : String)
      → record_of azi fq_name left timekey rows ≡ ok rec
      → get_field n rec
        ≡ found_field (
            or_else
              (field_value rows none n)
              (wind_entry (last_speed rows none) (last_direction rows (d.lit (pos 0) 0)) n))
  unfolding record_of get_field
  get_field-record_of left timekey rows rec n e =
      elim (Result-cases (take_rows azi fq_name rows (start_state azi fq_name left timekey))) [
        | inl (s, taken) ↦ ap found_field (
            with_wind-find s (λ n. field_value rows none n) (last_speed rows none)
              (last_direction rows (d.lit (pos 0) 0)) rec n
              (take_rows-Matches rows (start_state azi fq_name left timekey) s (λ n. none) none
                (d.lit (pos 0) 0) (λ n. refl, refl, refl) taken)
              (ap (λ x. x >>= with_wind azi fq_name) (sym taken) ∙ e))
        | inr (x, thrown) ↦
            let clash : err x ≡ ok rec = ap (λ x. x >>= with_wind azi fq_name) (sym thrown) ∙ e in
            absurd (ground (arith, clash))
      ]
