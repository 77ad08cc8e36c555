-- ===== src/Names/Laws.antt =====
-- The caches of lib/FQField_internals.cc against a database without caches.
use meteo.Base.{
  ℕ, ◌==◌, ◌&&◌, ◌≡◌, refl, sym, ap, ◌∙◌, ◌⊎◌, true, List, [], ◌∷◌, ◌++◌, Option, none, some,
  Result, ok, err, ◌>>=◌, nothing_known, map, Bool-cases, inl, inr, arith,
}
use meteo.Query.{FieldId}
use meteo.Names.{
  Name, same_name, FqName, split, fq_string, Database, Cache, find_name, find_station, answered,
  asked, from_cache, id_of, asked_ids, from_stations, Request, no_entries, get_fieldid, run,
}
use meteo.Names.Split.{split-fq_string}

same_name→eq : (x y : Name) → same_name x y ≡ true → x ≡ y
same_name→eq [] [] e = refl
same_name→eq [] (_ ∷ _) e = absurd (ground (arith, e))
same_name→eq (_ ∷ _) [] e = absurd (ground (arith, e))
same_name→eq (a ∷ x) (b ∷ y) e =
    let head : a ≡ b = ground (arith, e) in
    let tail : same_name x y ≡ true = ground (arith, e) in λ i. head i ∷ same_name→eq x y tail i

find_name-append :
    (m : List (Name × FieldId)) (k f : Name) (id j : FieldId)
    → find_name (m ++ ((k, id) ∷ [])) f ≡ some j
    → (find_name m f ≡ some j) ⊎ ((k ≡ f) × (id ≡ j))
find_name-append [] k f id j e = elim (Bool-cases (same_name k f)) [
  | inl same ↦
      let here : some id ≡ some j = rw (sym e, same) refl in
      inr (same_name→eq k f same, ground (arith, here))
  | inr other ↦ let clash : none ≡ some j = rw (sym e, other) refl in absurd (ground (arith, clash))
]
find_name-append ((k', i) ∷ m) k f id j e = elim (Bool-cases (same_name k' f)) [
  | inl same ↦ let here : some i ≡ some j = rw (sym e, same) refl in inl (rw same here)
  | inr other ↦
      let later : find_name (m ++ ((k, id) ∷ [])) f ≡ some j = rw (sym e, other) refl in
      rw other (find_name-append m k f id j later)
]

find_station-append :
    (m : List ((ℕ × ℕ) × ℕ)) (s' f' st' s f st : ℕ)
    → find_station (m ++ (((s', f'), st') ∷ [])) s f ≡ some st
    → (find_station m s f ≡ some st) ⊎ ((s' ≡ s) × (f' ≡ f) × (st' ≡ st))
find_station-append [] s' f' st' s f st e = elim (Bool-cases (s' == s && f' == f)) [
  | inl same ↦
      let here : some st' ≡ some st = rw (sym e, same) refl in
      inr (ground (arith, same), ground (arith, same), ground (arith, here))
  | inr other ↦
      let clash : none ≡ some st = rw (sym e, other) refl in absurd (ground (arith, clash))
]
find_station-append (((s'', f''), i) ∷ m) s' f' st' s f st e =
    elim (Bool-cases (s'' == s && f'' == f)) [
      | inl same ↦ let here : some i ≡ some st = rw (sym e, same) refl in inl (rw same here)
      | inr other ↦
          let later : find_station (m ++ (((s', f'), st') ∷ [])) s f ≡ some st =
            rw (sym e, other) refl in
          rw other (find_station-append m s' f' st' s f st later)
    ]

abbrev given : Option FieldId → Result FieldId
given none = err nothing_known
given (some id) = ok id

abbrev given_ids : ℕ → ℕ → Option (FqName × ℕ) → Result FieldId
given_ids s f none = err nothing_known
given_ids s f (some (fq, st)) = ok (id_of st s f)

module _ (db : Database) where
  -- The answers without caches.
  abbrev pub direct_name : Name → Result FieldId
  direct_name f = split f >>= λ fq. given (db.by_name fq)

  abbrev pub direct_ids : ℕ → ℕ → Result FieldId
  direct_ids s f = given_ids s f (db.by_ids s f)

  abbrev pub direct : Request → Result FieldId
  direct (Request.by_fieldname f) = direct_name f
  direct (Request.by_numbers s f) = direct_ids s f

  -- The entries of the caches are answers.
  abbrev pub IsCoherent : Cache → Type 0
  IsCoherent c =
      ((f : Name) (id : FieldId) → find_name c.string2fieldmap f ≡ some id → direct_name f ≡ ok id)
      × ((s f st : ℕ)
          → find_station c.stationmap s f ≡ some st
          → direct_ids s f ≡ ok (id_of st s f))

  -- The two queries of the database agree, and the names in it split into their parts.
  pub record IsUnique : Type 0 where
    pub ids_of_name :
        (fq : FqName) (id : FieldId)
        → db.by_name fq ≡ some id
        → (fq' : FqName) × (db.by_ids id.sensorid id.mfieldid ≡ some (fq', id.stationid))
    pub name_of_ids :
        (s f st : ℕ) (fq : FqName)
        → db.by_ids s f ≡ some (fq, st)
        → db.by_name fq ≡ some (id_of st s f)
    pub splits :
        (s f st : ℕ) (fq : FqName) → db.by_ids s f ≡ some (fq, st) → split (fq_string fq) ≡ ok fq

  names_kept :
      (c : Cache) (fq : FqName) (id : FieldId)
      → IsCoherent c
      → split (fq_string fq) ≡ ok fq
      → db.by_name fq ≡ some id
      → (f : Name) (j : FieldId)
      → find_name (c.string2fieldmap ++ ((fq_string fq, id) ∷ [])) f ≡ some j
      → direct_name f ≡ ok j
  names_kept c fq id (names, _) parts has f j e =
      elim (find_name-append c.string2fieldmap (fq_string fq) f id j e) [
        | inl old ↦ names f j old
        | inr (here, same) ↦
            ap direct_name (sym here)
            ∙ ap (λ r. r >>= λ q. given (db.by_name q)) parts
            ∙ ap given has
            ∙ ap (λ i. ok i) same
      ]

  stations_kept :
      (c : Cache) (id : FieldId) (fq : FqName)
      → IsCoherent c
      → db.by_ids id.sensorid id.mfieldid ≡ some (fq, id.stationid)
      → (s f st : ℕ)
      → find_station (c.stationmap ++ (((id.sensorid, id.mfieldid), id.stationid) ∷ [])) s f
        ≡ some st
      → direct_ids s f ≡ ok (id_of st s f)
  stations_kept c id fq (_, stations) has s f st e =
      elim (find_station-append c.stationmap id.sensorid id.mfieldid id.stationid s f st e) [
        | inl old ↦ stations s f st old
        | inr (same_s, same_f, same_st) ↦
            ap (λ x. direct_ids x f) (sym same_s)
            ∙ ap (λ x. direct_ids id.sensorid x) (sym same_f)
            ∙ ap (given_ids id.sensorid id.mfieldid) has
            ∙ ap (λ x. ok (id_of id.stationid x id.mfieldid)) same_s
            ∙ ap (λ x. ok (id_of id.stationid s x)) same_f
            ∙ ap (λ x. ok (id_of x s f)) same_st
      ]

  -- An answer of the caches is that of the database, and the caches stay answers.
  abbrev Answers : Result FieldId → Result FieldId × Cache → Type 0
  Answers r (r', c) = (r' ≡ r) × IsCoherent c

  answered-IsCoherent :
      (u : IsUnique) (fq : FqName) (c : Cache)
      → split (fq_string fq) ≡ ok fq
      → IsCoherent c
      → (o : Option FieldId) → db.by_name fq ≡ o
      → Answers (given o) (answered fq o c)
  answered-IsCoherent u fq c parts same none has = (refl, same)
  answered-IsCoherent u fq c parts same (some id) has =
      let (fq', there) = u.ids_of_name fq id has in
      (refl, (names_kept c fq id same parts has, stations_kept c id fq' same there))

  asked-IsCoherent :
      (u : IsUnique) (f : Name) (c : Cache)
      → IsCoherent c
      → (r : Result FqName) → split f ≡ r
      → Answers (r >>= λ fq. given (db.by_name fq)) (asked db r c)
  asked-IsCoherent u f c same (err e) parts = (refl, same)
  asked-IsCoherent u f c same (ok fq) parts =
      answered-IsCoherent u fq c (split-fq_string f fq parts) same (db.by_name fq) refl

  lookup-IsCoherent :
      (u : IsUnique) (f : Name) (c : Cache)
      → IsCoherent c
      → (o : Option FieldId) → find_name c.string2fieldmap f ≡ o
      → Answers (direct_name f) (from_cache db f o c)
  lookup-IsCoherent u f c same none e = asked-IsCoherent u f c same (split f) refl
  lookup-IsCoherent u f c same (some id) e = (sym (same.0 f id e), same)

  asked_ids-IsCoherent :
      (u : IsUnique) (s f : ℕ) (c : Cache)
      → IsCoherent c
      → (o : Option (FqName × ℕ)) → db.by_ids s f ≡ o
      → Answers (given_ids s f o) (asked_ids db s f o c)
  asked_ids-IsCoherent u s f c same none e = (refl, same)
  asked_ids-IsCoherent u s f c same (some (fq, st)) e = (
    refl,
    (
      names_kept c fq (id_of st s f) same (u.splits s f st fq e) (u.name_of_ids s f st fq e),
      same.1,
    ),
  )

  lookup_ids-IsCoherent :
      (u : IsUnique) (s f : ℕ) (c : Cache)
      → IsCoherent c
      → (o : Option ℕ) → find_station c.stationmap s f ≡ o
      → Answers (direct_ids s f) (from_stations db s f o c)
  lookup_ids-IsCoherent u s f c same none e = asked_ids-IsCoherent u s f c same (db.by_ids s f) refl
  lookup_ids-IsCoherent u s f c same (some st) e = (sym (same.1 s f st e), same)

  get_fieldid-IsCoherent :
      (u : IsUnique) (r : Request) (c : Cache)
      → IsCoherent c
      → Answers (direct r) (get_fieldid db r c)
  unfolding get_fieldid
  get_fieldid-IsCoherent u (Request.by_fieldname f) c same =
      lookup-IsCoherent u f c same (find_name c.string2fieldmap f) refl
  get_fieldid-IsCoherent u (Request.by_numbers s f) c same =
      lookup_ids-IsCoherent u s f c same (find_station c.stationmap s f) refl

  run-map :
      (u : IsUnique) (rs : List Request) (c : Cache) → IsCoherent c → run db rs c ≡ map direct rs
  unfolding run
  run-map u [] c same = refl
  run-map u (r ∷ rs) c same =
      let (answer, later) = get_fieldid-IsCoherent u r c same in
      let behind = run-map u rs (get_fieldid db r c).1 later in λ i. answer i ∷ behind i

  -- Where the two queries of the database agree and its names split into their parts: every sequence of
  -- requests, by names and by numbers, on caches that start empty, has the answers, exceptions included, that
  -- the database gives to each request alone.
  pub run_lem : IsUnique → (rs : List Request) → run db rs no_entries ≡ map direct rs
  run_lem u rs =
      run-map u rs no_entries
        (λ f id e. absurd (ground (arith, e)), λ s f st e. absurd (ground (arith, e)))
