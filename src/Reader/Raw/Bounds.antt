-- ===== src/Reader/Raw/Bounds.antt =====
-- Inside the packet the raw readers of lib/*PacketReader.cc test and read with a defined result.
use meteo.Base.{
  ℕ, zero, suc, ◌+◌, ◌*◌, ◌/◌, ◌<◌, ◌≤◌, ◌≡◌, refl, Bool, true, false, List, Result, ok, err,
  invalid_data, ◌>>=◌, if◌then◌else◌, length, get_or, arith, leb, ◌&&◌,
}
use meteo.Base.Int.{ℤ}
use meteo.Reader.Raw.{
  byte_at, byte_valid, byte_value, short_valid, short_value, raw_loop, nibble_valid, nibble_value,
}

pub byte_at_inside :
    (packet : List ℕ) (i : ℕ) → i < length packet → byte_at packet i ≡ ok (get_or packet i 0)
unfolding byte_at
byte_at_inside packet i h = ground arith

-- What the value is where the test has the result `b`.
abbrev pub Agrees : Bool → Result ℤ → Type 0
Agrees true m = (z : ℤ) × (m ≡ ok z)
Agrees false m = m ≡ err invalid_data

-- A test that is defined, and a value exactly where it holds.
abbrev pub Reads : Result Bool → Result ℤ → Type 0
Reads v m = (b : Bool) × (v ≡ ok b) × Agrees b m

Agrees-if : (b : Bool) (z : ℤ) → Agrees b (if b then ok z else err invalid_data)
Agrees-if true z = (z, refl)
Agrees-if false z = refl

pub byte-Reads :
    (offset : ℕ) (sign : Bool) (packet : List ℕ)
    → offset < length packet
    → Reads (byte_valid offset sign packet) (byte_value offset sign packet)
unfolding byte_value
byte-Reads offset sign packet h =
    rw (byte_at_inside packet offset h, ◌>>=◌) (_, refl, Agrees-if _ _)

pub short-Reads :
    (offset : ℕ) (sign littleendian : Bool) (packet : List ℕ)
    → offset + 1 < length packet
    → Reads
        (short_valid offset sign littleendian packet)
        (short_value offset sign littleendian packet)
unfolding short_value
short-Reads offset sign littleendian packet h =
    rw (byte_at_inside packet offset (omega arith), ◌>>=◌)
      (rw (byte_at_inside packet (offset + 1) h, ◌>>=◌) (_, refl, Agrees-if _ _))

raw_loop_inside :
    (offset : ℕ) (packet : List ℕ) (k r : ℕ)
    → 2 * offset + k ≤ 2 * length packet
    → (c : ℕ) × (raw_loop offset packet k r ≡ ok c)
unfolding raw_loop
raw_loop_inside offset packet zero r h = (r, refl)
raw_loop_inside offset packet (suc k) r h =
    rw (byte_at_inside packet (offset + k / 2) (omega arith), ◌>>=◌)
      (raw_loop_inside offset packet k _ (omega arith))

pub nibble-Reads :
    (offset : ℕ) (sign : Bool) (nibbles : ℕ) (packet : List ℕ)
    → 1 ≤ nibbles
    → nibbles ≤ 8
    → 2 * offset + nibbles ≤ 2 * length packet
    → Reads (nibble_valid offset sign nibbles packet) (nibble_value offset sign nibbles packet)
unfolding nibble_value
nibble-Reads offset sign nibbles packet some few h =
    let (c, e) = raw_loop_inside offset packet nibbles 0 h in
    let shifts : (leb 1 nibbles && leb nibbles 8) ≡ true = ground (arith, some, few) in
    rw (shifts, e, ◌>>=◌) (_, refl, Agrees-if _ _)
