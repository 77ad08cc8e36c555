-- ===== src/Tdata.antt =====
-- lib/Tdata.cc and include/Tdata.h: time dependent data, a map from times to values. A time is a
-- natural number. A function that throws returns an error, and the loops that catch it leave the time
-- out; the right-hand side of `data[t] = func(...)` is taken to run before the entry is made.
pub mod Maps
pub mod Algebra
pub mod Series
use meteo.Base.{
  ℕ, zero, suc, ◌+◌, ◌-◌, ◌%◌, Bool, true, false, ◌||◌, Option, none, some, Result, ok, err,
  if◌then◌else◌, List, [], ◌∷◌, ltb, leb, ◌==◌, field_not_found, division_by_zero,
}
use meteo.Base.Int.{ℤ, pos, negsuc}
use meteo.Base.Double.{Double}

-- std::map<time_t, double>, in the order of the keys.
abbrev pub Data : Type 0 → Type 0
Data D = List (ℕ × D)

module _ {D : Type 0} where
  abbrev pub find : Data D → ℕ → Option D
  find [] t = none
  find ((k, v) ∷ m) t = if t == k then some v else find m t

  -- data[t] = v
  abbrev pub insert : ℕ → D → Data D → Data D
  insert t v [] = (t, v) ∷ []
  insert t v ((k, w) ∷ m) =
      let rest = insert t v m in
      if ltb t k then (t, v) ∷ (k, w) ∷ m else if t == k then (t, v) ∷ m else (k, w) ∷ rest

  abbrev pub put : Option D → ℕ → Data D → Data D
  put none t m = m
  put (some v) t m = insert t v m

  -- A loop over the map `m` that sets the entries of `out` that `g` gives.
  abbrev pub collect : (ℕ → D → Option D) → Data D → Data D → Data D
  collect g [] out = out
  collect g ((k, v) ∷ m) out = collect g m (put (g k v) k out)

  abbrev pub caught : Result D → Option D
  caught (ok v) = some v
  caught (err _) = none

-- The times of `for (t = start; t <= finish; t += interval)`, on fuel.
abbrev pub slots : ℕ → ℕ → ℕ → ℕ → List ℕ
slots zero t finish interval = []
slots (suc n) t finish interval =
    let rest = slots n (t + interval) finish interval in if leb t finish then t ∷ rest else []

pub record Tdata (D : Type 0) : Type 0 where
  pub interval : ℕ
  pub start : ℕ
  pub finish : ℕ
  pub entries : Data D
  pub constant : Bool
  pub value : D

-- Each turn of the loop goes on by one or more.
abbrev pub times : {D : Type 0} → Tdata D → List ℕ
times a = slots (a.finish + 1 - a.start) a.start a.finish a.interval

module _ {D : Type 0} ⦃d : Double D⦄ where
  -- Tdata(double); the code leaves the interval and its ends unset.
  abbrev pub of_value : D → Tdata D
  of_value v = record {
    interval = 0;
    start = 0;
    finish = 0;
    entries = [];
    constant = true;
    value = v;
  }

  -- Tdata(int, time_t, time_t); the code leaves the value unset.
  abbrev pub of_range : ℕ → ℕ → ℕ → Tdata D
  of_range i s e = record {
    interval = i;
    start = s - s % i;
    finish = e - e % i;
    entries = [];
    constant = false;
    value = d.lit (pos 0) 0;
  }
