-- ===== src/Fixstamps/Rows.antt =====
-- The rows of an interval of time stamps, and the days of the loop in support/meteofixtimestamps.c.
use meteo.Base.{
  arith, ℕ, zero, suc, ◌+◌, ◌-◌, ◌*◌, ◌/◌, ◌≤◌, ◌<◌, ◌≡◌, refl, sym, ltb, leb, ◌&&◌, Bool, true,
  false, List, [], ◌∷◌, length, if◌then◌else◌,
}
use meteo.Fixstamps.{RowCells}

-- The rows of a table with their time stamps.
abbrev pub Rows : Type 0
Rows = List (ℕ × RowCells)

-- `timekey >= a and timekey < b`
abbrev pub chosen : ℕ → ℕ → Rows → List RowCells
chosen a b [] = []
chosen a b ((k, r) ∷ rows) =
    let rest = chosen a b rows in if leb a k && ltb k b then r ∷ rest else rest

abbrev pub number_between : Rows → ℕ → ℕ → ℕ
number_between rows a b = length (chosen a b rows)

-- The days that the loop takes, the last one begun.
abbrev pub days : ℕ → ℕ → ℕ
days t endtime = (endtime - t + 86399) / 86400

length-if :
    (b : Bool) (r : RowCells) (rs : List RowCells)
    → length (if b then r ∷ rs else rs) ≡ (if b then suc (length rs) else length rs)
length-if true r rs = refl
length-if false r rs = refl

pub between_split :
    (rows : Rows) (a b c : ℕ)
    → a ≤ b
    → b ≤ c
    → number_between rows a b + number_between rows b c ≡ number_between rows a c
between_split [] a b c ab bc = refl
between_split ((k, r) ∷ rows) a b c ab bc =
    let later = between_split rows a b c ab bc in
    let first = length-if (leb a k && ltb k b) r (chosen a b rows) in
    let second = length-if (leb b k && ltb k c) r (chosen b c rows) in
    let whole = length-if (leb a k && ltb k c) r (chosen a c rows) in
    ground (arith, later, first, second, whole, ab, bc)

pub between_empty : (rows : Rows) (a : ℕ) → number_between rows a a ≡ 0
between_empty [] a = refl
between_empty ((k, r) ∷ rows) a =
    let first = length-if (leb a k && ltb k a) r (chosen a a rows) in
    ground (arith, first, between_empty rows a)

pub days_next :
    (t endtime : ℕ)
    → t < endtime
    → t + 86400 + days (t + 86400) endtime * 86400 ≡ t + days t endtime * 86400
days_next t endtime h = omega (arith, h)

pub days_whole : (t n : ℕ) → t + days t (t + n * 86400) * 86400 ≡ t + n * 86400
days_whole t n = omega arith

module _ (stamp : ℕ → ℕ) (rises : (t : ℕ) → stamp t ≤ stamp (t + 86400)) where
  pub stamp_days : (k t : ℕ) → stamp t ≤ stamp (t + k * 86400)
  stamp_days zero t = rw (let e : t + 0 * 86400 ≡ t = omega arith in e) (omega arith)
  stamp_days (suc k) t =
      let e : t + 86400 + k * 86400 ≡ t + suc k * 86400 = omega arith in
      let later : stamp (t + 86400) ≤ stamp (t + suc k * 86400) =
        rw (sym e) (stamp_days k (t + 86400)) in
      omega (arith, rises t, later)
