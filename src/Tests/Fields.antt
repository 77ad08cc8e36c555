-- ===== src/Tests/Fields.antt =====
-- The field caches on a database with one field.
use meteo.Base.{
  ℕ, ◌==◌, ◌&&◌, ◌≡◌, refl, sym, ap, [], ◌∷◌, map, Option, some, none, ok, if◌then◌else◌,
  Bool-cases, inl, inr, arith,
}
use meteo.Names.{
  Name, FqName, same_name, split, fq_string, Database, Request, no_entries, id_of, run,
}
use meteo.Names.Laws.{IsUnique, direct, run_lem}

abbrev temperature : FqName
temperature = record { stationname = 114 ∷ []; sensorname = 105 ∷ []; fieldname = 116 ∷ [] }

abbrev text : Name
text = 114 ∷ 46 ∷ 105 ∷ 46 ∷ 116 ∷ []

abbrev name_in : Option (FqName × ℕ) → FqName
name_in none = temperature
name_in (some (fq, st)) = fq

abbrev station_in : Option (FqName × ℕ) → ℕ
station_in none = 0
station_in (some (fq, st)) = st

abbrev one_field : Database
one_field = record {
  by_name = λ fq. if same_name (fq_string fq) text then some (id_of 1 2 3) else none;
  by_ids = λ s f. if s == 2 && f == 3 then some (temperature, 1) else none;
}

only_entry :
    (s f st : ℕ) (fq : FqName)
    → one_field.by_ids s f ≡ some (fq, st)
    → (one_field.by_name fq ≡ some (id_of st s f)) × (split (fq_string fq) ≡ ok fq)
unfolding fq_string split
only_entry s f st fq e = elim (Bool-cases (s == 2 && f == 3)) [
  | inl same ↦
      let here : ◌≡◌ {A = Option (FqName × ℕ)} (some (temperature, 1)) (some (fq, st)) =
        rw (sym e, same) refl in
      let is_s : 2 ≡ s = ground (arith, same) in
      let is_f : 3 ≡ f = ground (arith, same) in
      let is_fq : temperature ≡ fq = ap name_in here in
      let is_st : 1 ≡ st = ap station_in here in
      rw (sym is_fq, sym is_st, sym is_s, sym is_f) (refl, refl)
  | inr other ↦
      let clash : ◌≡◌ {A = Option (FqName × ℕ)} none (some (fq, st)) = rw (sym e, other) refl in
      absurd (ground (arith, clash))
]

one_field-IsUnique : IsUnique one_field
unfolding fq_string split
one_field-IsUnique = record {
  ids_of_name = λ fq id e. elim (Bool-cases (same_name (fq_string fq) text)) [
    | inl same ↦
        let here : some (id_of 1 2 3) ≡ some id = rw (sym e, same) refl in
        let now : id_of 1 2 3 ≡ id = ground (arith, here) in (temperature, rw (sym now) refl)
    | inr other ↦
        let clash : none ≡ some id = rw (sym e, other) refl in absurd (ground (arith, clash))
  ];
  name_of_ids = λ s f st fq e. (only_entry s f st fq e).0;
  splits = λ s f st fq e. (only_entry s f st fq e).1;
}

run_lem_example :
    run one_field
      (Request.by_fieldname text
        ∷ Request.by_numbers 2 3
        ∷ Request.by_fieldname text
        ∷ Request.by_numbers 9 9
        ∷ [])
      no_entries
    ≡ map (direct one_field) (
        Request.by_fieldname text
        ∷ Request.by_numbers 2 3
        ∷ Request.by_fieldname text
        ∷ Request.by_numbers 9 9
        ∷ [])
run_lem_example = run_lem one_field one_field-IsUnique (
    Request.by_fieldname text
    ∷ Request.by_numbers 2 3
    ∷ Request.by_fieldname text
    ∷ Request.by_numbers 9 9
    ∷ [])
