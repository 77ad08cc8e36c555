-- ===== src/Recorder/Rain/Laws.antt =====
-- The rain that lib/RainRecorder.cc counts, in exact arithmetic on the ticks of the gauge.
use meteo.Base.{
  ◌≡◌, refl, sym, ◌∙◌, ap, true, ok, if◌then◌else◌, List, [], ◌∷◌, inl, inr, Bool-cases,
}
use meteo.Base.Int.{ℤ, pos, ltb_ℤ, ◌+ℤ◌, ◌-ℤ◌, int_laws}
use meteo.Base.Double.{int_double}
use meteo.Time.Timeval.{Timeval}
use meteo.Recorder.Rain.{Rain, update, reset, value_of}

-- A reading of the counter and the time of the update.
abbrev pub feed : List (Timeval × ℤ) → Rain ℤ → Rain ℤ
feed [] r = r
feed ((now, x) ∷ xs) r = feed xs (update now x r)

-- What falls between two readings: after a wrap around, all that the counter shows.
abbrev pub step : ℤ → ℤ → ℤ
step before now = if ltb_ℤ now before then now else now -ℤ before

abbrev pub fallen : ℤ → List (Timeval × ℤ) → ℤ
fallen before [] = pos 0
fallen before ((_, x) ∷ xs) = step before x +ℤ fallen x xs

abbrev interval : Rain ℤ → ℤ
interval r = r.basic.value -ℤ r.startvalue

update_valid : (now : Timeval) (x : ℤ) (r : Rain ℤ) → (update now x r).basic.isvalid ≡ true
unfolding update
update_valid now x r = refl

update_value : (now : Timeval) (x : ℤ) (r : Rain ℤ) → (update now x r).basic.value ≡ x
unfolding update
update_value now x r = refl

wrapped_sum : (x v s : ℤ) → x -ℤ (pos 0 -ℤ (v -ℤ s)) ≡ (v -ℤ s) +ℤ x
wrapped_sum x v s = grind int_laws

risen_sum : (x v s : ℤ) → x -ℤ s ≡ (v -ℤ s) +ℤ (x -ℤ v)
risen_sum x v s = grind int_laws

add_assoc : (a b c : ℤ) → (a +ℤ b) +ℤ c ≡ a +ℤ (b +ℤ c)
add_assoc a b c = grind int_laws

add_zero : (a : ℤ) → a +ℤ pos 0 ≡ a
add_zero a = grind int_laws

zero_add : (v a : ℤ) → (v -ℤ v) +ℤ a ≡ a
zero_add v a = grind int_laws

interval-update :
    (now : Timeval) (x : ℤ) (r : Rain ℤ)
    → r.basic.isvalid ≡ true
    → interval (update now x r) ≡ interval r +ℤ step r.basic.value x
unfolding update
interval-update now x r valid = elim (Bool-cases (ltb_ℤ x r.basic.value)) [
  | inl wrap ↦ rw (valid, wrap) (wrapped_sum x r.basic.value r.startvalue)
  | inr rise ↦ rw (valid, rise) (risen_sum x r.basic.value r.startvalue)
]

feed_valid :
    (xs : List (Timeval × ℤ)) (r : Rain ℤ)
    → r.basic.isvalid ≡ true
    → (feed xs r).basic.isvalid ≡ true
feed_valid [] r valid = valid
feed_valid ((now, x) ∷ xs) r valid = feed_valid xs (update now x r) (update_valid now x r)

interval-feed :
    (xs : List (Timeval × ℤ)) (r : Rain ℤ)
    → r.basic.isvalid ≡ true
    → interval (feed xs r) ≡ interval r +ℤ fallen r.basic.value xs
interval-feed [] r valid = sym (add_zero (interval r))
interval-feed ((now, x) ∷ xs) r valid =
    interval-feed xs (update now x r) (update_valid now x r)
    ∙ ap (λ (v : ℤ). interval (update now x r) +ℤ fallen v xs) (update_value now x r)
    ∙ ap (λ (i : ℤ). i +ℤ fallen x xs) (interval-update now x r valid)
    ∙ add_assoc (interval r) (step r.basic.value x) (fallen x xs)

interval-reset : (r : Rain ℤ) (a : ℤ) → r.basic.isvalid ≡ true → interval (reset r) +ℤ a ≡ a
unfolding reset
interval-reset r a valid = rw valid (zero_add r.basic.value a)

reset_valid : (r : Rain ℤ) → (reset r).basic.isvalid ≡ r.basic.isvalid
unfolding reset
reset_valid r = refl

reset_value : (r : Rain ℤ) → (reset r).basic.value ≡ r.basic.value
unfolding reset
reset_value r = refl

-- In integers: on a recorder that has read the counter before, the rain of an interval, from the
-- reset on, is the sum of what falls between consecutive readings, however often the counter wraps
-- around; after a wrap around that is all that the counter shows.
pub value_of-feed :
    (r : Rain ℤ) (xs : List (Timeval × ℤ))
    → r.basic.isvalid ≡ true
    → value_of (feed xs (reset r)) ≡ ok (fallen r.basic.value xs)
unfolding value_of
value_of-feed r xs valid =
    let still = reset_valid r ∙ valid in
    let total =
      interval-feed xs (reset r) still
      ∙ ap (λ (v : ℤ). interval (reset r) +ℤ fallen v xs) (reset_value r)
      ∙ interval-reset r (fallen r.basic.value xs) valid in
    rw (feed_valid xs (reset r) still) (ap ok total)
