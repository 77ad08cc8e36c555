-- ===== src/Fixstamps/Laws.antt =====
-- Which rows support/meteofixtimestamps.c copies.
use meteo.Base.{
  arith, ℕ, zero, suc, ◌+◌, ◌-◌, ◌*◌, ◌≤◌, ◌<◌, ◌≡◌, refl, sym, ap, ◌∙◌, ltb, leb, ◌==◌, ◌&&◌, ◌||◌,
  Bool, true, false, List, [], ◌∷◌, length, some, Result, ok, err, Bool-cases, inl, inr, All,
}
use meteo.Base.Int.{ℤ}
use meteo.Queue.{Text}
use meteo.Fixstamps.{
  LocalTime, Column, Insert, RowCells, OldTable, insert_of, inserted, tallied, copy_rows,
  and_copied, copy_day, copy_days, checked_days, from_limits, after_count, copy_table,
}
use meteo.Fixstamps.Rows.{
  Rows, chosen, number_between, days, between_split, between_empty, days_next, days_whole,
  stamp_days,
}

module _ {Db : Type 0} (mktime : LocalTime → ℤ) (printed : ℤ → Text) (escape : Text → Text)
    (query : Insert → Db → Bool × Db) (table : Text) (cs : List Column) where
  -- The fields of the row have types that are copied, and its texts fit.
  abbrev pub IsCopied : RowCells → Type 0
  IsCopied r = (q : Insert) × (insert_of mktime printed escape table cs r ≡ ok q)

  -- The database takes every `insert`.
  abbrev pub IsOpen : Type 0
  IsOpen = (q : Insert) (db : Db) → (query q db).0 ≡ true

  chosen-IsCopied :
      (rows : Rows) (a b : ℕ) → All (λ r. IsCopied r.1) rows → All IsCopied (chosen a b rows)
  chosen-IsCopied [] a b good = tt
  chosen-IsCopied ((k, r) ∷ rows) a b (first, good) = elim (Bool-cases (leb a k && ltb k b)) [
    | inl e ↦ rw e (first, chosen-IsCopied rows a b good)
    | inr e ↦ rw e (chosen-IsCopied rows a b good)
  ]

  tallied-true :
      (rows : ℕ) (x : Bool × Db) (next : ℕ → Db → Result ℕ × Db)
      → x.0 ≡ true
      → tallied mktime printed escape query rows x next ≡ next (suc rows) x.1
  tallied-true rows (true, db) next e = refl
  tallied-true rows (false, db) next e = absurd (ground (arith, e))

  copy_rows-length :
      (rs : List RowCells) (n : ℕ) (db : Db)
      → IsOpen
      → All IsCopied rs
      → (copy_rows mktime printed escape query table cs rs n db).0 ≡ ok (n + length rs)
  copy_rows-length [] n db takes good = ap ok (omega arith)
  copy_rows-length (r ∷ rs) n db takes ((q, e), good) =
      let next = copy_rows mktime printed escape query table cs rs in
      ap (λ x. (inserted mktime printed escape query n x db next).0) e
      ∙ ap (λ x. x.0) (tallied-true n (query q db) next (takes q db))
      ∙ copy_rows-length rs (suc n) (query q db).1 takes good
      ∙ ap ok (let sum : suc n + length rs ≡ n + suc (length rs) = omega arith in sum)

  module _ (stamp : ℕ → ℕ) (old : OldTable) (rows : Rows) where
    -- The database selects the rows of an interval.
    abbrev pub IsSelecting : Type 0
    IsSelecting = (a b : ℕ) → old.select a b ≡ ok (cs, chosen a b rows)

    and_copied-ok :
        (total m : ℕ) (x : Result ℕ × Db) (next : ℕ → Db → Result ℕ × Db)
        → x.0 ≡ ok m
        → and_copied mktime printed escape query stamp total x next ≡ next (total + m) x.1
    and_copied-ok total m (ok n, db) next e =
        let same : n ≡ m = ground (arith, e) in ap (λ (k : ℕ). next (total + k) db) same
    and_copied-ok total m (err r, db) next e = absurd (ground (arith, e))

    day_copied :
        (t : ℕ) (db : Db)
        → IsOpen
        → All (λ r. IsCopied r.1) rows
        → IsSelecting
        → (copy_day mktime printed escape query stamp table
            (old.select (stamp t) (stamp (t + 86400)))
            db).0
          ≡ ok (number_between rows (stamp t) (stamp (t + 86400)))
    day_copied t db takes good selects =
        ap (λ x. (copy_day mktime printed escape query stamp table x db).0)
          (selects (stamp t) (stamp (t + 86400)))
        ∙ copy_rows-length (chosen (stamp t) (stamp (t + 86400)) rows) 0 db takes
            (chosen-IsCopied rows (stamp t) (stamp (t + 86400)) good)
        ∙ ap ok (
            let sum : 0 + number_between rows (stamp t) (stamp (t + 86400))
                ≡ number_between rows (stamp t) (stamp (t + 86400)) =
              omega arith in
            sum)

    no_day_left :
        (t endtime total : ℕ)
        → endtime ≤ t
        → total ≡ total + number_between rows (stamp t) (stamp (t + days t endtime * 86400))
    no_day_left t endtime total late =
        let here : t + days t endtime * 86400 ≡ t = omega (arith, late) in
        rw (here, between_empty rows (stamp t)) (omega arith)

    a_day_more :
        (t endtime total : ℕ)
        → ((t : ℕ) → stamp t ≤ stamp (t + 86400))
        → t < endtime
        → total
            + number_between rows (stamp t) (stamp (t + 86400))
            + number_between rows
                (stamp (t + 86400))
                (stamp (t + 86400 + days (t + 86400) endtime * 86400))
          ≡ total + number_between rows (stamp t) (stamp (t + days t endtime * 86400))
    a_day_more t endtime total rises early =
        let split =
          between_split rows (stamp t) (stamp (t + 86400))
            (stamp (t + 86400 + days (t + 86400) endtime * 86400)) (rises t)
            (stamp_days stamp rises (days (t + 86400) endtime) (t + 86400)) in
        rw (sym (days_next t endtime early)) (omega (arith, split))

    copy_days-between :
        (n t endtime total : ℕ) (db : Db)
        → IsOpen
        → All (λ r. IsCopied r.1) rows
        → IsSelecting
        → ((t : ℕ) → stamp t ≤ stamp (t + 86400))
        → endtime - t ≤ n
        → (copy_days mktime printed escape query stamp table old n t endtime total db).0
          ≡ ok (total + number_between rows (stamp t) (stamp (t + days t endtime * 86400)))
    copy_days-between zero t endtime total db takes good selects rises fuel =
        ap ok (no_day_left t endtime total (omega (arith, fuel)))
    copy_days-between (suc n) t endtime total db takes good selects rises fuel =
        elim (Bool-cases (ltb t endtime)) [
          | inl e ↦
              let early : t < endtime = ground (arith, e) in
              let day =
                copy_day mktime printed escape query stamp table
                  (old.select (stamp t) (stamp (t + 86400))) db in
              rw e (
                ap (λ x. x.0)
                  (and_copied-ok total (number_between rows (stamp t) (stamp (t + 86400))) day
                    (copy_days mktime printed escape query stamp table old n (t + 86400) endtime)
                    (day_copied t db takes good selects))
                ∙ copy_days-between n (t + 86400) endtime
                    (total + number_between rows (stamp t) (stamp (t + 86400))) day.1 takes good
                    selects rises (omega (arith, fuel, early))
                ∙ ap ok (a_day_more t endtime total rises early))
          | inr e ↦
              let late : endtime ≤ t = ground (arith, e) in
              rw e (ap ok (no_day_left t endtime total late))
        ]

    checked_days-between :
        (starttime endtime : ℕ) (db : Db)
        → 0 < starttime
        → starttime ≤ endtime
        → IsOpen
        → All (λ r. IsCopied r.1) rows
        → IsSelecting
        → ((t : ℕ) → stamp t ≤ stamp (t + 86400))
        → (checked_days mktime printed escape query stamp table old starttime endtime db).0
          ≡ ok (
              number_between rows
                (stamp starttime)
                (stamp (starttime + days starttime endtime * 86400)))
    checked_days-between starttime endtime db above up takes good selects rises =
        let sane : (starttime == 0 || endtime == 0 || ltb endtime starttime) ≡ false =
          ground (arith, above, up) in
        rw sane (
          copy_days-between (endtime - starttime) starttime endtime 0 db takes good selects rises
            (omega arith)
          ∙ ap ok (
              let sum : 0
                    + number_between rows (stamp starttime)
                        (stamp (starttime + days starttime endtime * 86400))
                  ≡ number_between rows (stamp starttime)
                      (stamp (starttime + days starttime endtime * 86400)) =
                omega arith in
              sum))

    -- Of a table whose first time is not zero and not behind the last, where every row can be converted, the database
    -- takes every `insert`, and the time stamps rise from a time to that a day later: copy_table returns, and the
    -- number that it returns is that of the rows from the time stamp of the first time to that of the end of the
    -- last day that begins before the last time.
    pub copy_table_lem :
        (starttime endtime number : ℕ) (db : Db)
        → 0 < starttime
        → starttime ≤ endtime
        → old.count ≡ ok number
        → old.limits ≡ ok (some starttime, some endtime)
        → IsOpen
        → All (λ r. IsCopied r.1) rows
        → IsSelecting
        → ((t : ℕ) → stamp t ≤ stamp (t + 86400))
        → (copy_table mktime printed escape query stamp table old db).0
          ≡ ok (
              number_between rows
                (stamp starttime)
                (stamp (starttime + days starttime endtime * 86400)))
    unfolding copy_table
    copy_table_lem starttime endtime number db above up has_count has_limits takes good selects
          rises =
        ap (λ x. (after_count mktime printed escape query stamp table old x db).0) has_count
        ∙ ap (λ x. (from_limits mktime printed escape query stamp table old x db).0) has_limits
        ∙ checked_days-between starttime endtime db above up takes good selects rises

    -- The same, where the last time is a whole number of days behind the first: only the rows below the time stamp
    -- of the last time are counted, and those of the last time stay behind.
    pub copy_table_last :
        (starttime n number : ℕ) (db : Db)
        → 0 < starttime
        → old.count ≡ ok number
        → old.limits ≡ ok (some starttime, some (starttime + n * 86400))
        → IsOpen
        → All (λ r. IsCopied r.1) rows
        → IsSelecting
        → ((t : ℕ) → stamp t ≤ stamp (t + 86400))
        → (copy_table mktime printed escape query stamp table old db).0
          ≡ ok (number_between rows (stamp starttime) (stamp (starttime + n * 86400)))
    copy_table_last starttime n number db above has_count has_limits takes good selects rises =
        copy_table_lem starttime (starttime + n * 86400) number db above (omega arith) has_count
          has_limits takes good selects rises
        ∙ ap (λ (k : ℕ). ok (number_between rows (stamp starttime) (stamp k)))
            (days_whole starttime n)
