-- ===== src/Query/Perform.antt =====
-- The rows that `perform` of lib/QueryProcessor.cc sorts into data.
use meteo.Base.{
  ℕ, ◌&&◌, ◌==◌, ◌≡◌, refl, sym, ap, ◌∙◌, Bool, true, false, List, [], ◌∷◌, Option, none, some,
  Result, ok, err, ◌>>=◌, String, if◌then◌else◌, Bool-cases, Option-cases, inl, inr, arith, All,
}
use meteo.Base.Text.{str_eq, str_eq_iff}
use meteo.Base.Dict.{Dict, find, insert, on, find-each, find-insert, if_none, with_entry}
use meteo.Base.Double.{Double}
use meteo.Sensor.{before}
use meteo.Tdata.{Tdata, of_range}
use meteo.Tdata
use meteo.Tdata.Maps
use meteo.Query.{
  FieldId, Query, SqlRow, owner, prepare, set_at, store, store_rows, store_row, any_field, ids_of,
  get_query, perform,
}

-- An entry that is there stays.
insert_keeps :
    {A : Type 0} (k n : String) (r a : A) (m : Dict A)
    → find m n ≡ some a
    → find (insert before k r m) n ≡ some a
insert_keeps k n r a m e = elim (Option-cases (find m k)) [
  | inr (b, there) ↦
      find-insert before k r m n
      ∙ ap (λ o. if_none o (with_entry k r (find m) n) (find m n)) there
      ∙ e
  | inl new ↦
      find-insert before k r m n
      ∙ ap (λ o. if_none o (with_entry k r (find m) n) (find m n)) new
      ∙ elim (Bool-cases (str_eq n k)) [
        | inl same ↦
            let clash : some a ≡ none = sym e ∙ ap (find m) ((str_eq_iff n k).0 same) ∙ new in
            absurd (ground (arith, clash))
        | inr other ↦ rw other e
      ]
]

if_none_same : {A : Type 0} (o x : Option A) → if_none o x x ≡ x
if_none_same none x = refl
if_none_same (some _) x = refl

insert_leaves :
    {A : Type 0} (k n : String) (r : A) (m : Dict A)
    → str_eq n k ≡ false
    → find (insert before k r m) n ≡ find m n
insert_leaves k n r m other =
    find-insert before k r m n
    ∙ ap (λ b. if_none (find m k) (if b then some r else find m n) (find m n)) other
    ∙ if_none_same (find m k) (find m n)

-- The result is the name.
abbrev pub is_for : Result String → String → Bool
is_for (ok m) n = str_eq n m
is_for (err _) n = false

any_field_found :
    {A : Type 0} (select : Dict String) (n f : String) (result : Result A)
    → find select n ≡ some f
    → any_field select result ≡ result
any_field_found [] n f result e = absurd (ground (arith, e))
any_field_found (_ ∷ _) n f result e = refl

-- The field has an id.
abbrev pub IsKnown : (String → Result FieldId) → String × String → Type 0
IsKnown field_id (n, f) = (id : FieldId) × (field_id f ≡ ok id)

ids_of-IsKnown :
    (field_id : String → Result FieldId) (select : Dict String)
    → All (IsKnown field_id) select
    → (ids : List FieldId) × (ids_of field_id select ≡ ok ids)
ids_of-IsKnown field_id [] _ = ([], refl)
ids_of-IsKnown field_id ((n, f) ∷ select) ((id, known), others) =
    let (ids, e) = ids_of-IsKnown field_id select others in (id ∷ ids, rw (known, e) refl)

module _ {D : Type 0} ⦃d : Double D⦄ (id_of : ℕ → ℕ → Result FieldId) (q : Query) where
  -- The set of data that each name starts with.
  abbrev pub empty : Tdata D
  empty = of_range q.interval q.start q.end

  prepare_keeps :
      (select : Dict String) (result : Dict (Tdata D)) (n : String) (a : Tdata D)
      → find result n ≡ some a
      → find (prepare id_of q select result) n ≡ some a
  prepare_keeps [] result n a e = e
  prepare_keeps ((k, _) ∷ select) result n a e =
      prepare_keeps select (insert before k empty result) n a (insert_keeps k n empty a result e)

  prepare_makes :
      (select : Dict String) (result : Dict (Tdata D)) (n f : String)
      → find select n ≡ some f
      → find result n ≡ none
      → find (prepare id_of q select result) n ≡ some empty
  prepare_makes [] result n f e new = absurd (ground (arith, e))
  prepare_makes ((k, g) ∷ select) result n f e new = elim (Bool-cases (str_eq n k)) [
    | inl same ↦
        let none_yet : find result k ≡ none =
          ap (find result) (sym ((str_eq_iff n k).0 same)) ∙ new in
        prepare_keeps select (insert before k empty result) n empty (
          find-insert before k empty result n
          ∙ ap (λ o. if_none o (with_entry k empty (find result) n) (find result n)) none_yet
          ∙ rw same refl)
    | inr other ↦
        let behind : find select n ≡ some f = rw (sym e, other) refl in
        prepare_makes select (insert before k empty result) n f behind
          (insert_leaves k n empty result other ∙ new)
  ]

  -- The value of the last row that belongs to a name and a time, or the one given.
  abbrev pub latest : String → List (SqlRow D) → ℕ → Option D → Option D
  latest n [] t o = o
  latest n (row ∷ rows) t o =
      latest n rows t
        (if is_for (owner id_of q.idmap row) n && (t == row.timekey) then some row.value else o)

  -- The row belongs to a name of the query.
  abbrev pub IsOwned : SqlRow D → Type 0
  IsOwned row = (n : String) × (owner id_of q.idmap row ≡ ok n)

  abbrev chosen : Bool → SqlRow D → Tdata D → Tdata D
  chosen b row a = if b then set_at id_of row.timekey row.value a else a

  find-chosen :
      (b : Bool) (row : SqlRow D) (a : Tdata D) (t : ℕ)
      → Tdata.find (chosen b row a).entries t
        ≡ (if b && (t == row.timekey) then some row.value else Tdata.find a.entries t)
  find-chosen true row a t = Maps.find-insert row.timekey row.value a.entries t
  find-chosen false row a t = refl

  stored :
      (rows : List (SqlRow D)) (result : Dict (Tdata D))
      → All IsOwned rows
      → (result' : Dict (Tdata D)) × (store_rows id_of q.idmap rows result ≡ ok result')
        × ((n : String) (a : Tdata D)
            → find result n ≡ some a
            → (a' : Tdata D) × (find result' n ≡ some a')
              × ((t : ℕ) → Tdata.find a'.entries t ≡ latest n rows t (Tdata.find a.entries t)))
  stored [] result _ = (result, refl, λ n a e. (a, e, λ t. refl))
  stored (row ∷ rows) result ((m, e), owned) =
      let next = store id_of m row.timekey row.value result in
      let (result', done, each_name) = stored rows next owned in
      (
        result',
        ap (λ r. store_row id_of r row (store_rows id_of q.idmap rows) result) e ∙ done,
        λ n a there.
            let now =
              find-each (λ k b. if str_eq k m then set_at id_of row.timekey row.value b else b)
                result n
              ∙ ap (on (chosen (str_eq n m) row)) there in
            let (a', found, values) = each_name n (chosen (str_eq n m) row a) now in
            (
              a',
              found,
              λ t.
                  values t
                  ∙ ap (latest n rows t) (find-chosen (str_eq n m) row a t)
                  ∙ ap
                      (λ r. latest n rows t (
                        if is_for r n && (t == row.timekey)
                        then some row.value
                        else Tdata.find a.entries t))
                      (sym e),
            ),
      )

  -- Take a query with a selected name, whose fields all have ids, and a database that answers with rows for
  -- names of the query only. The query is carried out, and the database is asked for the ids of its fields. Each
  -- selected name then has a set of data, and that set holds at each time the value of the last row for this
  -- name and time, and nothing at a time without such a row.
  pub perform_lem :
      (field_id : String → Result FieldId) (rows : List FieldId → List (SqlRow D)) (n₀ f₀ : String)
      → find q.select n₀ ≡ some f₀
      → All (IsKnown field_id) q.select
      → ((ids : List FieldId) → All IsOwned (rows ids))
      → (ids : List FieldId) × (ids_of field_id q.select ≡ ok ids)
        × (result : Dict (Tdata D)) × (perform id_of field_id q rows ≡ ok result)
        × ((n f : String)
            → find q.select n ≡ some f
            → (a : Tdata D) × (find result n ≡ some a)
              × ((t : ℕ) → Tdata.find a.entries t ≡ latest n (rows ids) t none))
  unfolding perform get_query
  perform_lem field_id rows n₀ f₀ e known owned =
      let (ids, found) = ids_of-IsKnown field_id q.select known in
      let (result, done, each_name) = stored (rows ids) (prepare id_of q q.select []) (owned ids) in
      (
        ids,
        found,
        result,
        ap (λ r. r >>= λ ids. store_rows id_of q.idmap (rows ids) (prepare id_of q q.select []))
              (any_field_found q.select n₀ f₀ (ids_of field_id q.select) e ∙ found)
            ∙ done,
        λ n f chosen_n. each_name n empty (prepare_makes q.select [] n f chosen_n refl),
      )
