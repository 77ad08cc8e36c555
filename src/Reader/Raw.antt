-- ===== src/Reader/Raw.antt =====
-- lib/BytePacketReader.cc, lib/ShortPacketReader.cc and lib/NibblePacketReader.cc. A packet is a list
-- of bytes. The result of `value` is the C++ integer that is cast to a double.
pub mod Bounds
pub mod Encode
pub mod Nibbles
use Prim.Native.Nat.{bit_and, bit_or}
use meteo.Base.{
  ℕ, zero, suc, ◌+◌, ◌-◌, ◌*◌, ◌/◌, ◌%◌, ◌^◌, Bool, not, ◌&&◌, ◌||◌, leb, List, Result, ok, err,
  undefined, invalid_data, ◌>>=◌, ltb, ◌==◌, if◌then◌else◌, length, get_or,
}
use meteo.Base.Int.{ℤ, pos, negsuc}

-- `packet[i]` on a const std::string: the position behind the last character reads as 0, and any
-- further one has no meaning.
unfoldable pub byte_at : List ℕ → ℕ → Result ℕ
byte_at packet i =
    if ltb i (length packet)
    then ok (get_or packet i 0)
    else if i == length packet
    then ok 0
    else err undefined

-- A byte as a signed char, and 16 and 32 bits as a signed short and a signed int.
abbrev pub signed_char : ℕ → ℤ
signed_char c = if ltb c 128 then pos c else negsuc (255 - c)

abbrev pub signed_short : ℕ → ℤ
signed_short us = if ltb us 32768 then pos us else negsuc (65535 - us)

abbrev pub signed_int : ℕ → ℤ
signed_int c = if ltb c (2 ^ 31) then pos c else negsuc (2 ^ 32 - 1 - c)

-- BytePacketReader(offset, sign)
unfoldable pub byte_valid : ℕ → Bool → List ℕ → Result Bool
unfolding byte_at
byte_valid offset sign packet = do
  c ← byte_at packet offset
  ok (if sign then not (c == 0x7f) && not (c == 0x80) else not (c == 0xff))

unfoldable pub byte_value : ℕ → Bool → List ℕ → Result ℤ
unfolding byte_valid
byte_value offset sign packet = do
  v ← byte_valid offset sign packet
  c ← byte_at packet offset
  if v then ok (if sign then signed_char c else pos c) else err invalid_data

-- `us`, from the two bytes in the order that the reader is made for
unfoldable pub short_at : ℕ → Bool → List ℕ → Result ℕ
unfolding byte_at
short_at offset littleendian packet = do
  c1 ← byte_at packet offset
  c2 ← byte_at packet (offset + 1)
  ok (if littleendian then c2 * 256 + c1 else c1 * 256 + c2)

-- ShortPacketReader(offset, sign, littleendian)
unfoldable pub short_valid : ℕ → Bool → Bool → List ℕ → Result Bool
unfolding short_at
short_valid offset sign littleendian packet = do
  us ← short_at offset littleendian packet
  ok (if sign then not (us == 0x7fff) && not (us == 0x8000) else not (us == 0xffff))

unfoldable pub short_value : ℕ → Bool → Bool → List ℕ → Result ℤ
unfolding short_valid
short_value offset sign littleendian packet = do
  v ← short_valid offset sign littleendian packet
  us ← short_at offset littleendian packet
  if v then ok (if sign then signed_short us else pos us) else err invalid_data

-- NibblePacketReader::getNibble
unfoldable pub get_nibble : ℕ → ℕ → List ℕ → Result ℕ
unfolding byte_at
get_nibble offset i packet = do
  b ← byte_at packet (offset + i / 2)
  ok (if i % 2 == 0 then b % 16 else b / 16)

-- NibblePacketReader::rawvalue, with `n` nibbles to go: the loop runs down to nibble 0. The
-- unsigned int wraps at 32 bits.
unfoldable pub raw_loop : ℕ → List ℕ → ℕ → ℕ → Result ℕ
unfolding get_nibble
raw_loop offset packet zero result = ok result
raw_loop offset packet (suc i) result = do
  n ← get_nibble offset i packet
  raw_loop offset packet i ((result * 16 + n) % 2 ^ 32)

unfoldable pub raw_value : ℕ → ℕ → List ℕ → Result ℕ
unfolding raw_loop
raw_value offset nibbles packet = raw_loop offset packet nibbles 0

-- The marks of missing data of NibblePacketReader(offset, sign, nibbles)
abbrev is_invalid : Bool → ℕ → ℕ → Bool
is_invalid sign nibbles c =
    let invalidunsigned = c == 0xffffffff / 2 ^ (32 - nibbles * 4) in
    let invalidsigned = c == 0x7fffffff / 2 ^ (32 - nibbles * 4) in
    if sign then invalidunsigned || invalidsigned else invalidsigned

-- `valid`; for no nibble and for more than 8, a shift by `32 - nibbles * 4` has no meaning.
unfoldable pub nibble_valid : ℕ → Bool → ℕ → List ℕ → Result Bool
unfolding raw_value
nibble_valid offset sign nibbles packet =
    if leb 1 nibbles && leb nibbles 8
    then (raw_value offset nibbles packet >>= λ c. ok (not (is_invalid sign nibbles c)))
    else err undefined

-- `cs |= 0xffffffff << (nibbles * 4)` where the sign bit is set
unfoldable pub extend_sign : ℕ → ℕ → ℤ
extend_sign nibbles c =
    if bit_and c (0x80000000 / 2 ^ (32 - nibbles * 4)) == 0
    then signed_int c
    else signed_int (bit_or c (0xffffffff * 2 ^ (nibbles * 4) % 2 ^ 32))

unfoldable pub nibble_value : ℕ → Bool → ℕ → List ℕ → Result ℤ
unfolding nibble_valid extend_sign
nibble_value offset sign nibbles packet = do
  v ← nibble_valid offset sign nibbles packet
  c ← raw_value offset nibbles packet
  if v then ok (if sign then extend_sign nibbles c else pos c) else err invalid_data
