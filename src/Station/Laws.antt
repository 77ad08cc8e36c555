-- ===== src/Station/Laws.antt =====
-- The reader map of lib/Station.cc.
use meteo.Base.{
  ℕ, suc, ◌≡◌, ◌≢◌, ◌⊎◌, refl, sym, ◌∙◌, ap, Bool, true, false, List, [], ◌∷◌, Option, none, some,
  Result, ok, err, ◌>>=◌, if◌then◌else◌, String, inl, inr, Bool-cases, Option-cases,
  reader_not_found, is_ok,
}
use meteo.Base.Text.{str_eq, str_eq_iff, str_eq_sym, str_eq_other}
use meteo.Base.Double.{Double}
use meteo.Reader.Calibrator.{Calibrator}
use meteo.Reader.Tables.{Entry}
use meteo.Station.{
  Managed, Readers, find_reader, insert_reader, set_cal, found, calibrate_reader, make_reader,
  add_made, add_all_readers,
}

module _ {D : Type 0} where
  abbrev pub or_else : Option (Managed D) → Option (Managed D) → Option (Managed D)
  or_else none o = o
  or_else (some r) _ = some r

  or_none : (o : Option (Managed D)) → or_else o none ≡ o
  or_none none = refl
  or_none (some r) = refl

  pub find-insert_reader :
      (k : String) (r : Managed D) (m : Readers D) (n : String)
      → find_reader (insert_reader k r m) n
        ≡ or_else (find_reader m n) (if str_eq n k then some r else none)
  find-insert_reader k r [] n = refl
  find-insert_reader k r ((j, s) ∷ m) n =
      let later = find-insert_reader k r m n in
      elim (Bool-cases (str_eq k j)) [
        | inl kj ↦ elim (Bool-cases (str_eq n j)) [
          | inl nj ↦ rw (kj, nj) refl
          | inr nj ↦
              let nk = ap (str_eq n) ((str_eq_iff k j).0 kj) ∙ nj in
              rw (kj, nj, nk) (sym (or_none (find_reader m n)))
        ]
        | inr kj ↦ elim (Bool-cases (str_eq n j)) [
          | inl nj ↦ rw (kj, nj) refl
          | inr nj ↦ rw (kj, nj) later
        ]
      ]

  -- The reader with a calibrator of its own.
  abbrev pub calibrated : Calibrator D → Option (Managed D) → Option (Managed D)
  calibrated c none = none
  calibrated c (some r) = some (record r { cal = c })

  find-set_cal :
      (k : String) (c : Calibrator D) (m : Readers D) (n : String)
      → find_reader (set_cal k c m) n
        ≡ (if str_eq n k then calibrated c (find_reader m n) else find_reader m n)
  find-set_cal k c [] n = elim (Bool-cases (str_eq n k)) [ inl e ↦ rw e refl | inr e ↦ rw e refl ]
  find-set_cal k c ((j, s) ∷ m) n =
      let later = find-set_cal k c m n in
      elim (Bool-cases (str_eq k j)) [
        | inl kj ↦
            let same = ap (str_eq n) ((str_eq_iff k j).0 kj) in
            elim (Bool-cases (str_eq n j)) [
              | inl nj ↦ rw (kj, same, nj) refl
              | inr nj ↦ rw (kj, same, nj) refl
            ]
        | inr kj ↦ elim (Bool-cases (str_eq n j)) [
          | inl nj ↦
              let other =
                ap (λ (x : String). str_eq x k) ((str_eq_iff n j).0 nj) ∙ str_eq_sym j k ∙ kj in
              rw (kj, nj, other) refl
          | inr nj ↦ rw (kj, nj) later
        ]
      ]

  -- `calibrate_reader` fails exactly where no reader has the name; otherwise the reader of that name,
  -- and no other, has the new calibrator, and nothing else of it changes.
  pub calibrate_reader_lem :
      (k : String) (c : Calibrator D) (m : Readers D)
      → ((find_reader m k ≡ none) × (calibrate_reader k c m ≡ err reader_not_found))
        ⊎ ((m' : Readers D) × (calibrate_reader k c m ≡ ok m')
            × (find_reader m' k ≡ calibrated c (find_reader m k))
            × ((n : String) → n ≢ k → find_reader m' n ≡ find_reader m n))
  unfolding calibrate_reader
  calibrate_reader_lem k c m =
      let pick =
        λ (n : String) (b : Bool). if b then calibrated c (find_reader m n) else find_reader m n in
      elim (Option-cases (find_reader m k)) [
        | inl h ↦ inl (h, rw h refl)
        | inr (r, h) ↦ inr (
          set_cal k c m,
          ap (λ (o : Option (Managed D)). found o >>= λ _. ok (set_cal k c m)) h,
          find-set_cal k c m k ∙ ap (pick k) ((str_eq_iff k k).1 refl),
          λ n other. find-set_cal k c m n ∙ ap (pick n) (str_eq_other n k other),
        )
      ]

  or_else_assoc : (a b c : Option (Managed D)) → or_else (or_else a b) c ≡ or_else a (or_else b c)
  or_else_assoc none b c = refl
  or_else_assoc (some r) b c = refl

module _ {D : Type 0} ⦃d : Double D⦄ (field_class : String → Result String) where
  abbrev pub made_one : Bool → Result (Managed D) → Option (Managed D) → Option (Managed D)
  made_one true (ok r) _ = some r
  made_one true (err _) o = o
  made_one false _ o = o

  -- The first entry of the name whose reader can be made.
  abbrev pub first_made : List Entry → String → Option (Managed D)
  first_made [] n = none
  first_made (e ∷ entries) n =
      made_one (str_eq n e.readername) (make_reader field_class e) (first_made entries n)

  find-add_made :
      (e : String) (r : Result (Managed D)) (m : Readers D) (n : String)
      (later : Option (Managed D))
      → or_else (find_reader (add_made field_class e r m) n) later
        ≡ or_else (find_reader m n) (made_one (str_eq n e) r later)
  find-add_made e (err _) m n later = elim (Bool-cases (str_eq n e)) [
    | inl h ↦ rw h refl
    | inr h ↦ rw h refl
  ]
  find-add_made e (ok r) m n later =
      ap (λ (o : Option (Managed D)). or_else o later) (find-insert_reader e r m n)
      ∙ or_else_assoc (find_reader m n) (if str_eq n e then some r else none) later
      ∙ elim (Bool-cases (str_eq n e)) [ inl h ↦ rw h refl | inr h ↦ rw h refl ]

  -- `add_all_readers` keeps the readers that are there, and adds for each other name the reader of the
  -- first entry that can be made.
  pub find-add_all_readers :
      (entries : List Entry) (m : Readers D) (counter : ℕ) (n : String)
      → find_reader (add_all_readers field_class entries (m, counter)).0 n
        ≡ or_else (find_reader m n) (first_made entries n)
  find-add_all_readers [] m counter n = sym (or_none (find_reader m n))
  find-add_all_readers (e ∷ entries) m counter n =
      let made = make_reader field_class e in
      find-add_all_readers entries (add_made field_class e.readername made m)
        (if is_ok made then suc counter else counter) n
      ∙ find-add_made e.readername made m n (first_made entries n)
