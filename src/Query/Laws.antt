-- ===== src/Query/Laws.antt =====
-- The two maps of lib/Query.cc, from names to fields and from ids to names.
use meteo.Base.{
  ◌≡◌, refl, sym, ap, ◌∙◌, true, ◌∷◌, none, some, Result, ok, ◌>>=◌, String, if◌then◌else◌,
  Bool-cases, inl, inr, arith,
}
use meteo.Base.Text.{str_eq, str_eq_iff}
use meteo.Base.Dict.{find, insert, find-insert, if_none, with_entry}
use meteo.Sensor.{before}
use meteo.Query.{FieldId, same_id, name_of, Query, add_select, add_name, add_id}

same_id_self : (a : FieldId) → same_id a a ≡ true
same_id_self a = ground arith

same_id→eq : (a b : FieldId) → same_id a b ≡ true → a ≡ b
same_id→eq a b h =
    let p : a.stationid ≡ b.stationid = ground arith in
    let q : a.sensorid ≡ b.sensorid = ground arith in
    let r : a.mfieldid ≡ b.mfieldid = ground arith in
    λ i. record { stationid = p i; sensorid = q i; mfieldid = r i }

-- The two maps hold the same fields: a selected name is the name of its field's id, and the name of an id is
-- selected with a field of that id.
abbrev pub IsConsistent : (String → Result FieldId) → Query → Type 0
IsConsistent field_id q =
    ((n f : String)
      → find q.select n ≡ some f
      → (id : FieldId) × (field_id f ≡ ok id) × (name_of q.idmap id ≡ some n))
    × ((id : FieldId) (n : String)
        → name_of q.idmap id ≡ some n
        → (f : String) × (find q.select n ≡ some f) × (field_id f ≡ ok id))

module _ (field_id : String → Result FieldId) (n f : String) (id : FieldId) (q : Query) where
  -- The query with one name more.
  abbrev pub extended : Query
  extended = record q { select = insert before n f q.select; idmap = (id, n) ∷ q.idmap }

  find-extended :
      find q.select n ≡ none
      → (m : String) → find extended.select m ≡ with_entry n f (find q.select) m
  find-extended new m =
      find-insert before n f q.select m
      ∙ ap (λ o. if_none o (with_entry n f (find q.select) m) (find q.select m)) new

  names_extended :
      IsConsistent field_id q
      → find q.select n ≡ none
      → field_id f ≡ ok id
      → name_of q.idmap id ≡ none
      → (m g : String) → find extended.select m ≡ some g
      → (j : FieldId) × (field_id g ≡ ok j) × (name_of extended.idmap j ≡ some m)
  names_extended (names, ids) new known free m g e = elim (Bool-cases (str_eq m n)) [
    | inl same ↦
        let here : some f ≡ some g = rw (sym e, find-extended new m, same) refl in
        let now : f ≡ g = ground (arith, here) in
        (id, rw (sym now) known, rw (same_id_self id) (ap some (sym ((str_eq_iff m n).0 same))))
    | inr other ↦
        let old : find q.select m ≡ some g = rw (sym e, find-extended new m, other) refl in
        let (j, has_id, has_name) = names m g old in
        elim (Bool-cases (same_id id j)) [
          | inl same ↦
              let clash : some m ≡ none =
                sym has_name ∙ ap (name_of q.idmap) (sym (same_id→eq id j same)) ∙ free in
              absurd (ground (arith, clash))
          | inr apart ↦ (j, has_id, rw apart has_name)
        ]
  ]

  ids_extended :
      IsConsistent field_id q
      → find q.select n ≡ none
      → field_id f ≡ ok id
      → (j : FieldId) (m : String) → name_of extended.idmap j ≡ some m
      → (g : String) × (find extended.select m ≡ some g) × (field_id g ≡ ok j)
  ids_extended (names, ids) new known j m e = elim (Bool-cases (same_id id j)) [
    | inl same ↦
        let here : some n ≡ some m = rw (sym e, same) refl in
        let now : n ≡ m = ground (arith, here) in
        (
          f,
          find-extended new m
              ∙ ap (λ b. if b then some f else find q.select m) ((str_eq_iff m n).1 (sym now)),
          known ∙ ap ok refl ∙ ap ok (same_id→eq id j same),
        )
    | inr apart ↦
        let old : name_of q.idmap j ≡ some m = rw (sym e, apart) refl in
        let (g, selected, has_id) = ids j m old in
        elim (Bool-cases (str_eq m n)) [
          | inl same ↦
              let clash : some g ≡ none =
                sym selected ∙ ap (find q.select) ((str_eq_iff m n).0 same) ∙ new in
              absurd (ground (arith, clash))
          | inr other ↦ (g, find-extended new m ∙ rw other selected, has_id)
        ]
  ]

  -- Where the maps of a query hold the same fields, the name is not selected, and its field has an id that is
  -- not selected either: `addSelect` succeeds, and the maps hold the same fields again, the new one with them.
  pub add_select-IsConsistent :
      IsConsistent field_id q
      → find q.select n ≡ none
      → field_id f ≡ ok id
      → name_of q.idmap id ≡ none
      → (q' : Query) × (add_select field_id n f q ≡ ok q')
        × IsConsistent field_id q'
        × (find q'.select n ≡ some f)
  unfolding add_select
  add_select-IsConsistent same new known free = (
    extended,
    ap (λ o. add_name field_id n f o q) new
        ∙ ap (λ r. r >>= λ i. add_id n f i (name_of q.idmap i) q) known
        ∙ ap (λ o. add_id n f id o q) free,
    (names_extended same new known free, ids_extended same new known),
    find-extended new n ∙ ap (λ b. if b then some f else find q.select n) ((str_eq_iff n n).1 refl),
  )
