-- ===== src/Time/Offset.antt =====
-- Timekeys: a time with the offset of its station.
use native.Mathlib.Nat.{div-add-mod, mul-mod_right}
use meteo.Base.{ℕ, suc, ◌+◌, ◌-◌, ◌*◌, ◌/◌, ◌%◌, ◌≤◌, ◌<◌, ◌≡◌, ap, ◌∙◌, arith}
use meteo.Base.Int.{ℤ, pos, negsuc}

-- timekey = time + offset and time = timekey - offset, for times after 1970
abbrev pub timekey_of : ℤ → ℕ → ℕ
timekey_of (pos k) t = t + k
timekey_of (negsuc k) t = t - suc k

abbrev pub time_of : ℤ → ℕ → ℕ
time_of (pos k) t = t - k
time_of (negsuc k) t = t + suc k

pub timekey_of-add :
    (offset : ℤ) (t u : ℕ)
    → 1 ≤ timekey_of offset t
    → timekey_of offset (t + u) ≡ timekey_of offset t + u
timekey_of-add (pos k) t u h = omega arith
timekey_of-add (negsuc k) t u h = omega (arith, h)

pub sub_mod : (k i : ℕ) → (k - k % i) % i ≡ 0
sub_mod k i =
    let parts = div-add-mod k i in
    let whole : k - k % i ≡ i * (k / i) = omega (arith, parts) in
    ap (λ x. x % i) whole ∙ mul-mod_right i (k / i)

pub timekey_of-sub :
    (offset : ℤ) (t r : ℕ)
    → r < timekey_of offset t
    → r ≤ t
    → timekey_of offset (t - r) ≡ timekey_of offset t - r
timekey_of-sub (pos k) t r h g = omega (arith, h, g)
timekey_of-sub (negsuc k) t r h g = omega (arith, h, g)
