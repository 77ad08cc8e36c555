-- ===== src/Reader/Raw/Encode.antt =====
-- Round trips of lib/BytePacketReader.cc and lib/ShortPacketReader.cc: what a station encodes in two's
-- complement, the readers give back, but for the values that mark missing data.
use meteo.Base.{
  ℕ, ◌+◌, ◌-◌, ◌/◌, ◌%◌, ◌<◌, ◌≡◌, refl, ap, Bool, true, false, List, [], ◌∷◌, ◌++◌, ok, err,
  invalid_data, ◌>>=◌, ◌==◌, if◌then◌else◌, length, get_or, length-append, get_or-append, arith,
}
use meteo.Base.Int.{ℤ, pos, negsuc, ◌≤ℤ◌}
use meteo.Reader.Raw.{byte_at, byte_value, short_at, short_value}

-- The byte after `front`.
pub byte_at-append :
    (front rest : List ℕ) (i b : ℕ)
    → i < length rest
    → get_or rest i 0 ≡ b
    → byte_at (front ++ rest) (length front + i) ≡ ok b
unfolding byte_at
byte_at-append front rest i b h e =
    ground (arith, length-append front rest, get_or-append front rest i 0)

-- The low 8 and 16 bits of an integer.
abbrev pub to_byte : ℤ → ℕ
to_byte (pos n) = n % 256
to_byte (negsuc n) = 255 - n % 256

abbrev pub to_short : ℤ → ℕ
to_short (pos n) = n % 65536
to_short (negsuc n) = 65535 - n % 65536

abbrev is_missing_byte : ℤ → Bool
is_missing_byte (pos n) = n == 127
is_missing_byte (negsuc n) = n == 127

byte_at_end : (front rest : List ℕ) (b : ℕ) → byte_at (front ++ (b ∷ rest)) (length front) ≡ ok b
byte_at_end front rest b =
    let e : length front + 0 ≡ length front = omega arith in
    rw e at (byte_at-append front (b ∷ rest) 0 b (omega arith) refl)

-- A signed byte reader gives back every integer from -128 to 127, but throws on 127 and -128, which
-- mark missing data; whatever stands before and after the byte.
pub byte_value-to_byte :
    (front rest : List ℕ) (z : ℤ)
    → negsuc 127 ≤ℤ z
    → z ≤ℤ pos 127
    → byte_value (length front) true (front ++ (to_byte z ∷ rest))
      ≡ (if is_missing_byte z then err invalid_data else ok z)
unfolding byte_value
byte_value-to_byte front rest (pos n) lo hi =
    rw (byte_at_end front rest (n % 256), ◌>>=◌) (ground arith)
byte_value-to_byte front rest (negsuc n) lo hi =
    rw (byte_at_end front rest (255 - n % 256), ◌>>=◌) (ground arith)

-- An unsigned byte reader gives back every byte but 0xff, which marks missing data.
pub byte_value_unsigned :
    (front rest : List ℕ) (b : ℕ)
    → b < 256
    → byte_value (length front) false (front ++ (b ∷ rest))
      ≡ (if b == 255 then err invalid_data else ok (pos b))
unfolding byte_value
byte_value_unsigned front rest b h = rw (byte_at_end front rest b, ◌>>=◌) (ground arith)

-- 16 bits in either byte order.
abbrev pub short_bytes : Bool → ℕ → List ℕ
short_bytes littleendian us =
    if littleendian then us % 256 ∷ us / 256 ∷ [] else us / 256 ∷ us % 256 ∷ []

byte_at_second :
    (front rest : List ℕ) (a b : ℕ) → byte_at (front ++ (a ∷ b ∷ rest)) (length front + 1) ≡ ok b
byte_at_second front rest a b = byte_at-append front (a ∷ b ∷ rest) 1 b (omega arith) refl

short_at-short_bytes :
    (front rest : List ℕ) (littleendian : Bool) (us : ℕ)
    → us < 65536
    → short_at (length front) littleendian (front ++ (short_bytes littleendian us ++ rest)) ≡ ok us
unfolding short_at
short_at-short_bytes front rest true us h =
    let first = byte_at_end front (us / 256 ∷ rest) (us % 256) in
    let second = byte_at_second front rest (us % 256) (us / 256) in
    rw (first, ◌>>=◌) (rw (second, ◌>>=◌) (ap ok (omega arith)))
short_at-short_bytes front rest false us h =
    let first = byte_at_end front (us % 256 ∷ rest) (us / 256) in
    let second = byte_at_second front rest (us / 256) (us % 256) in
    rw (first, ◌>>=◌) (rw (second, ◌>>=◌) (ap ok (omega arith)))

abbrev is_missing_short : ℤ → Bool
is_missing_short (pos n) = n == 32767
is_missing_short (negsuc n) = n == 32767

-- In either byte order a signed short reader gives back every integer from -32768 to 32767, but throws
-- on 32767 and -32768, which mark missing data.
pub short_value-to_short :
    (front rest : List ℕ) (littleendian : Bool) (z : ℤ)
    → negsuc 32767 ≤ℤ z
    → z ≤ℤ pos 32767
    → short_value
        (length front)
        true
        littleendian
        (front ++ (short_bytes littleendian (to_short z) ++ rest))
      ≡ (if is_missing_short z then err invalid_data else ok z)
unfolding short_value
short_value-to_short front rest littleendian (pos n) lo hi =
    rw (short_at-short_bytes front rest littleendian (n % 65536) (omega arith), ◌>>=◌)
      (ground arith)
short_value-to_short front rest littleendian (negsuc n) lo hi =
    rw (short_at-short_bytes front rest littleendian (65535 - n % 65536) (omega arith), ◌>>=◌)
      (ground arith)

-- In either byte order an unsigned short reader gives back all 16-bit values but 0xffff.
pub short_value_unsigned :
    (front rest : List ℕ) (littleendian : Bool) (us : ℕ)
    → us < 65536
    → short_value (length front) false littleendian (front ++ (short_bytes littleendian us ++ rest))
      ≡ (if us == 65535 then err invalid_data else ok (pos us))
unfolding short_value
short_value_unsigned front rest littleendian us h =
    rw (short_at-short_bytes front rest littleendian us h, ◌>>=◌) (ground arith)
