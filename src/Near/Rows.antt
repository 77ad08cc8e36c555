-- ===== src/Near/Rows.antt =====
-- What a row does to the record that nearRecord of lib/QueryProcessor.cc makes.
use meteo.Base.{
  ◌≡◌, refl, sym, ap, ◌∙◌, true, false, Option, none, some, Result, ok, err, ◌>>=◌, if◌then◌else◌,
  String, Bool-cases, Option-cases, inl, inr, ℕ, arith, field_exists, ◌⊎◌, Reason,
}
use mathlib.Core.Path.{subst}
use meteo.Base.Text.{str_eq, str_eq_iff}
use meteo.Base.Dict.{find, place, find-place}
use meteo.Base.Double.{Double}
use meteo.Vector.{Libm}
use meteo.Value.Quantity.{Quantity}
use meteo.Sensor.{before}
use meteo.Tdata.Maps.{or_else}
use meteo.Near.{
  Datarecord, FieldRow, NearState, RowKind, put_field, added_field, take_field, take_as,
}

pub or_none : {A : Type 0} (o : Option A) → or_else o none ≡ o
or_none none = refl
or_none (some a) = refl

abbrev pub result_or : {A : Type 0} → A → Result A → A
result_or a (ok b) = b
result_or a (err e) = a

pub Result-cases :
    {A : Type 0} (x : Result A) → ((a : A) × (x ≡ ok a)) ⊎ ((e : Reason) × (x ≡ err e))
Result-cases (ok a) = inl (a, refl)
Result-cases (err e) = inr (e, refl)

module _ {D : Type 0} where
  -- The value that a row gives to the field of a name.
  abbrev pub entry_as : RowKind → String → Result (Quantity D) → String → Option (Quantity D)
  entry_as RowKind.unclassed k v n = none
  entry_as RowKind.speed k v n = none
  entry_as RowKind.direction k v n = none
  entry_as RowKind.field k (err e) n = none
  entry_as RowKind.field k (ok v) n = if str_eq n k then some v else none

  -- The row of the wind speed and its name, and the direction, as of a row.
  abbrev pub speed_as :
      RowKind → String → FieldRow D → Option (String × FieldRow D) → Option (String × FieldRow D)
  speed_as RowKind.unclassed k r o = o
  speed_as RowKind.speed k r o = some (k, r)
  speed_as RowKind.direction k r o = o
  speed_as RowKind.field k r o = o

  abbrev pub direction_as : RowKind → FieldRow D → D → D
  direction_as RowKind.unclassed r z = z
  direction_as RowKind.speed r z = z
  direction_as RowKind.direction r z = r.amount
  direction_as RowKind.field r z = z

  abbrev pub IsWind : Option (String × FieldRow D) → NearState D → Type 0
  IsWind none s = s.haswind ≡ false
  IsWind (some (k, r)) s =
      (s.haswind ≡ true) × (s.windspeed ≡ r.amount) × (s.windunit ≡ r.unit) × (s.windname ≡ k)

  -- The fields, the wind speed and the direction of a state.
  abbrev pub Matches :
      (String → Option (Quantity D)) → Option (String × FieldRow D) → D → NearState D → Type 0
  Matches g o z s = ((n : String) → find s.result.data_map n ≡ g n) × IsWind o s × (s.winddir ≡ z)

  IsWind-result :
      (o : Option (String × FieldRow D)) (s : NearState D) (r : Datarecord D)
      → IsWind o s
      → IsWind o (record s { result = r })
  IsWind-result none s r w = w
  IsWind-result (some _) s r w = w

  IsWind-winddir :
      (o : Option (String × FieldRow D)) (s : NearState D) (z : D)
      → IsWind o s
      → IsWind o (record s { winddir = z })
  IsWind-winddir none s z w = w
  IsWind-winddir (some _) s z w = w

  with_entry_else :
      (n k : String) (v : Quantity D) (o : Option (Quantity D))
      → (str_eq n k ≡ true → o ≡ none)
      → (if str_eq n k then some v else o) ≡ or_else o (if str_eq n k then some v else none)
  with_entry_else n k v o free = elim (Bool-cases (str_eq n k)) [
    | inl e ↦ rw (e, free e) refl
    | inr e ↦ rw e (sym (or_none o))
  ]

  pub put_field-find :
      (k : String) (v : Quantity D) (r r' : Datarecord D) (n : String)
      → put_field k v r ≡ ok r'
      → find r'.data_map n ≡ or_else (find r.data_map n) (if str_eq n k then some v else none)
  put_field-find k v r r' n e = elim (Option-cases (find r.data_map k)) [
    | inl free ↦
        let made : ok (record r { data_map = place before k v r.data_map }) ≡ ok r' =
          ap (λ o. added_field o k v r) (sym free) ∙ e in
        let same : record r { data_map = place before k v r.data_map } ≡ r' =
          ap (result_or r) made in
        ap (λ x. find x.data_map n) (sym same)
        ∙ find-place before k v r.data_map n free
        ∙ with_entry_else n k v (find r.data_map n)
            (λ q. ap (find r.data_map) ((str_eq_iff n k).0 q) ∙ free)
    | inr (b, there) ↦
        let clash : err field_exists ≡ ok r' = ap (λ o. added_field o k v r) (sym there) ∙ e in
        absurd (ground (arith, clash))
  ]

module _ {D : Type 0} ⦃d : Double D⦄ ⦃c : Libm D⦄ (azi : D) (fq_name : ℕ → ℕ → Result String) where
  -- What a row of a kind does to what its state matches.
  abbrev Steps : RowKind → Type 0
  Steps kind =
      (k : String) (r : FieldRow D) (v : Result (Quantity D)) (s s' : NearState D)
      (g : String → Option (Quantity D)) (o : Option (String × FieldRow D)) (z : D)
      → Matches g o z s
      → take_as azi fq_name kind k r v s ≡ ok s'
      → Matches (λ n. or_else (g n) (entry_as kind k v n)) (speed_as kind k r o)
          (direction_as kind r z) s'

  take_field-Matches :
      (k : String) (v : Result (Quantity D)) (s s' : NearState D) (g : String → Option (Quantity D))
      (o : Option (String × FieldRow D)) (z : D)
      → Matches g o z s
      → take_field azi fq_name k v s ≡ ok s'
      → Matches (λ n. or_else (g n) (entry_as RowKind.field k v n)) o z s'
  take_field-Matches k (err x) s s' g o z m e = absurd (ground (arith, e))
  take_field-Matches k (ok v) s s' g o z (fields, wind, dir) e =
      elim (Result-cases (put_field k v s.result)) [
        | inl (r, put) ↦
            let made : ok (record s { result = r }) ≡ ok s' =
              ap (λ x. x >>= λ r. ok (record s { result = r })) (sym put) ∙ e in
            subst (Matches (λ n. or_else (g n) (if str_eq n k then some v else none)) o z)
              (ap (result_or s) made)
              (
                λ n.
                    put_field-find k v s.result r n put
                    ∙ ap (λ x. or_else x (if str_eq n k then some v else none)) (fields n),
                IsWind-result o s r wind,
                dir,
              )
        | inr (x, thrown) ↦
            let clash : err x ≡ ok s' =
              ap (λ x. x >>= λ r. ok (record s { result = r })) (sym thrown) ∙ e in
            absurd (ground (arith, clash))
      ]

  pub take_as-Matches : (kind : RowKind) → Steps kind
  take_as-Matches RowKind.unclassed k r v s s' g o z (fields, wind, dir) e =
      subst (Matches (λ n. or_else (g n) none) o z) (ap (result_or s) e)
        (λ n. fields n ∙ sym (or_none (g n)), wind, dir)
  take_as-Matches RowKind.speed k r v s s' g o z (fields, wind, dir) e =
      subst (Matches (λ n. or_else (g n) none) (some (k, r)) z) (ap (result_or s) e)
        (λ n. fields n ∙ sym (or_none (g n)), (refl, refl, refl, refl), dir)
  take_as-Matches RowKind.direction k r v s s' g o z (fields, wind, dir) e =
      subst (Matches (λ n. or_else (g n) none) o r.amount) (ap (result_or s) e)
        (λ n. fields n ∙ sym (or_none (g n)), IsWind-winddir o s r.amount wind, refl)
  take_as-Matches RowKind.field k r v s s' g o z m e = take_field-Matches k v s s' g o z m e
