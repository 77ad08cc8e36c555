-- ===== src/Reader/Kinds/Validity.antt =====
-- `valid` and `value` of the reader classes agree, inside the packet.
use meteo.Base.{
  ℕ, ◌+◌, ◌/◌, ◌≤◌, ◌≡◌, refl, Bool, true, false, List, Result, ok, err, invalid_data, ◌>>=◌,
  if◌then◌else◌, length, arith,
}
use meteo.Base.Int.{ℤ}
use meteo.Base.Double.{Double}
use meteo.Reader.Raw.Bounds.{byte_at_inside, Reads, byte-Reads, short-Reads, nibble-Reads}
use meteo.Reader.Kinds.{Kind, both, valid, value, as_double}

-- One more than the last position that a reader looks at.
unfoldable pub extent : Kind → ℕ
extent (Kind.byte o s) = o + 1
extent (Kind.short o s l) = o + 2
extent (Kind.nibble o s n) = o + (n + 1) / 2
extent (Kind.temperature o) = o + 2
extent (Kind.extra_temperature o) = o + 1
extent (Kind.old_temperature o) = o + 2
extent (Kind.barometer o) = o + 2
extent (Kind.rain o) = o + 2
extent (Kind.rain_rate o) = o + 1
extent (Kind.uv o) = o + 1
extent (Kind.voltage o) = o + 2
extent (Kind.time o) = o + 2
extent (Kind.old_wind o) = o + 3
extent Kind.wmii_wind = 8
extent Kind.vantage_pro_wind = 18

-- A nibble reader has from 1 to 8 nibbles: the shifts of the code have a meaning for these.
abbrev pub IsShifted : Kind → Type 0
IsShifted (Kind.nibble o s n) = (1 ≤ n) × (n ≤ 8)
IsShifted _ = Unit

-- The readers whose `value` makes all the tests of `valid`: the clock reader makes none, and two wind
-- readers test the speed alone.
pub checks : Kind → Bool
checks (Kind.time o) = false
checks (Kind.old_wind o) = false
checks Kind.wmii_wind = false
checks (Kind.byte o s) = true
checks _ = true

abbrev pub Follows : {D : Type 0} → Bool → Bool → Result D → Type 0
Follows {D} c true m = (x : D) × (m ≡ ok x)
Follows true false m = m ≡ err invalid_data
Follows false false m = Unit

module _ {D : Type 0} ⦃d : Double D⦄ (today : ℕ → ℕ → ℤ) where
  scaled :
      (f : D → D) {v : Result Bool} {m : Result ℤ}
      → Reads v m
      → (b : Bool) × (v ≡ ok b) × Follows true b (as_double today m >>= λ x. ok (f x))
  unfolding as_double
  scaled f (true, e, (z, q)) = (true, e, (f (d.of_int z), rw q))
  scaled f (false, e, q) = (false, e, rw q)

  raw :
      {v : Result Bool} {m : Result ℤ}
      → Reads v m
      → (b : Bool) × (v ≡ ok b) × Follows {D = D} true b (as_double today m)
  unfolding as_double
  raw (true, e, (z, q)) = (true, e, (d.of_int z, rw q))
  raw (false, e, q) = (false, e, rw q)

  -- A wind reader: the direction is tested first, and the value is that of the speed.
  wind :
      (f : D → D) {v w : Result Bool} {m n : Result ℤ}
      → Reads v m
      → Reads w n
      → (b : Bool) × (both v w ≡ ok b) × Follows false b (as_double today n >>= λ x. ok (f x))
  unfolding as_double
  wind f (true, e, _) (true, e', (z, q)) = (true, rw (e, e'), (f (d.of_int z), rw q))
  wind f (true, e, _) (false, e', q) = (false, rw (e, e'), tt)
  wind f (false, e, _) r = (false, rw e, tt)

  -- The wind reader that makes the whole test before it reads the speed.
  guarded :
      (f : D → D) {v w : Result Bool} {m n : Result ℤ}
      → Reads v m
      → Reads w n
      → (b : Bool) × (both v w ≡ ok b)
        × Follows true b (
            both v w >>= λ a. if a then (as_double today n >>= λ x. ok (f x)) else err invalid_data)
  unfolding as_double
  guarded f (true, e, _) (true, e', (z, q)) = (true, rw (e, e'), (f (d.of_int z), rw (e, e', q)))
  guarded f (true, e, _) (false, e', q) = (false, rw (e, e'), rw (e, e'))
  guarded f (false, e, _) r = (false, rw e, rw e)

  always : (b : Bool) {m : Result D} (x : D) → m ≡ ok x → Follows false b m
  always true x e = (x, e)
  always false x e = tt

  pub value-valid :
      (k : Kind) (packet : List ℕ)
      → IsShifted k
      → extent k ≤ length packet
      → (b : Bool) × (valid k packet ≡ ok b) × Follows {D = D} (checks k) b (value today k packet)
  unfolding valid value extent checks
  value-valid (Kind.byte o s) p _ h = raw (byte-Reads o s p (omega arith))
  value-valid (Kind.short o s l) p _ h = raw (short-Reads o s l p (omega arith))
  value-valid (Kind.nibble o s n) p (one, few) h = raw (nibble-Reads o s n p one few (omega arith))
  value-valid (Kind.temperature o) p _ h = scaled _ (short-Reads o true true p (omega arith))
  value-valid (Kind.extra_temperature o) p _ h = scaled _ (byte-Reads o false p (omega arith))
  value-valid (Kind.old_temperature o) p _ h =
      scaled _ (nibble-Reads o true 3 p (omega arith) (omega arith) (omega arith))
  value-valid (Kind.barometer o) p _ h = scaled _ (short-Reads o false true p (omega arith))
  value-valid (Kind.rain o) p _ h = scaled _ (short-Reads o false true p (omega arith))
  value-valid (Kind.rain_rate o) p _ h = scaled _ (byte-Reads o false p (omega arith))
  value-valid (Kind.uv o) p _ h = scaled _ (byte-Reads o false p (omega arith))
  value-valid (Kind.voltage o) p _ h = scaled _ (short-Reads o false true p (omega arith))
  value-valid (Kind.time o) p _ h =
      rw (byte_at_inside p o (omega arith), ◌>>=◌)
        (rw (byte_at_inside p (o + 1) (omega arith), ◌>>=◌) (_, refl, always _ _ refl))
  value-valid (Kind.old_wind o) p _ h =
      wind _ (nibble-Reads (o + 1) false 3 p (omega arith) (omega arith) (omega arith))
        (byte-Reads o false p (omega arith))
  value-valid Kind.wmii_wind p _ h =
      wind _ (short-Reads 6 false true p (omega arith)) (byte-Reads 5 false p (omega arith))
  value-valid Kind.vantage_pro_wind p _ h =
      guarded _ (short-Reads 16 false true p (omega arith)) (byte-Reads 14 false p (omega arith))
