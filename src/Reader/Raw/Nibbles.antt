-- ===== src/Reader/Raw/Nibbles.antt =====
-- lib/NibblePacketReader.cc: the loop over nibbles reads a little-endian number, and what the two
-- validity tests let through.
use native.Mathlib.Nat.{pow-suc, one-le-pow, le-mul_of_pos_right, pow-le-pow_right}
use meteo.Reader.Raw.Encode.{byte_at-append}
use meteo.Base.{
  ℕ, zero, suc, ◌+◌, ◌-◌, ◌*◌, ◌/◌, ◌%◌, ◌^◌, ◌<◌, ◌≤◌, ◌≡◌, refl, ap, sym, Bool, true, false, ◌&&◌,
  ◌||◌, List, [], ◌∷◌, ◌++◌, ok, err, invalid_data, ◌>>=◌, ltb, ◌==◌, if◌then◌else◌, length, get_or,
  arith, holds_below, holds_below-at, ==_iff, AreBytes,
}
use meteo.Base.Int.{ℤ, pos, negsuc, pos_part, neg_part, eq_of_parts}
use meteo.Reader.Raw.{get_nibble, raw_loop, raw_value, nibble_value, extend_sign}

-- The number that the first `k` nibbles stand for: whole bytes, lowest first, and half a byte.
pub number : List ℕ → ℕ → ℕ
number [] k = 0
number (b ∷ bytes) zero = 0
number (b ∷ bytes) (suc zero) = b % 16
number (b ∷ bytes) (suc (suc k)) = b + 256 * number bytes k

nibble : List ℕ → ℕ → ℕ
nibble [] i = 0
nibble (b ∷ bytes) zero = b % 16
nibble (b ∷ bytes) (suc zero) = b / 16
nibble (b ∷ bytes) (suc (suc i)) = nibble bytes i

pow_two_more : (k : ℕ) → 16 ^ suc (suc k) ≡ 256 * 16 ^ k
pow_two_more k = omega (arith, pow-suc 16 (suc k), pow-suc 16 k)

-- One nibble more on top.
number-suc :
    (bytes : List ℕ) (k : ℕ) → number bytes (suc k) ≡ nibble bytes k * 16 ^ k + number bytes k
unfolding number nibble
number-suc [] k = omega arith
number-suc (b ∷ bytes) zero = omega arith
number-suc (b ∷ []) (suc zero) = omega arith
number-suc (b ∷ c ∷ bytes) (suc zero) = omega arith
number-suc (b ∷ bytes) (suc (suc k)) =
    omega (arith, number-suc bytes k, ap (λ (t : ℕ). nibble bytes k * t) (pow_two_more k))

get_or-nibble :
    (bytes : List ℕ) (i : ℕ)
    → nibble bytes i
      ≡ (if i % 2 == 0 then get_or bytes (i / 2) 0 % 16 else get_or bytes (i / 2) 0 / 16)
unfolding nibble
get_or-nibble [] i = ground arith
get_or-nibble (b ∷ bytes) zero = refl
get_or-nibble (b ∷ bytes) (suc zero) = refl
get_or-nibble (b ∷ bytes) (suc (suc i)) =
    let e : suc (suc i) / 2 ≡ suc (i / 2) = omega arith in
    let m : suc (suc i) % 2 ≡ i % 2 = omega arith in rw (e, m) (get_or-nibble bytes i)

get_nibble-nibble :
    (front bytes : List ℕ) (i : ℕ)
    → i < 2 * length bytes
    → get_nibble (length front) i (front ++ bytes) ≡ ok (nibble bytes i)
unfolding get_nibble
get_nibble-nibble front bytes i h =
    rw (byte_at-append front bytes (i / 2) (get_or bytes (i / 2) 0) (omega arith) refl, ◌>>=◌)
      (ap ok (sym (get_or-nibble bytes i)))

one_le_pow : (k : ℕ) → 1 ≤ 16 ^ k
one_le_pow k = one-le-pow k 16 (omega arith)

-- A factor of at least 1 makes no number smaller.
lt_of_scaled : (x p y m : ℕ) → 1 ≤ p → x * p + y < m → x < m
lt_of_scaled x p y m h lt = omega (arith, le-mul_of_pos_right {m = p} x h)

number_zero : (bytes : List ℕ) → number bytes 0 ≡ 0
unfolding number
number_zero [] = refl
number_zero (b ∷ bytes) = refl

raw_loop-number :
    (front bytes : List ℕ) (k r : ℕ)
    → k ≤ 2 * length bytes
    → r * 16 ^ k + number bytes k < 2 ^ 32
    → raw_loop (length front) (front ++ bytes) k r ≡ ok (r * 16 ^ k + number bytes k)
unfolding raw_loop
raw_loop-number front bytes zero r h lt = ap ok (omega (arith, number_zero bytes))
raw_loop-number front bytes (suc k) r h lt =
    let n = nibble bytes k in
    let p = pow-suc 16 k in
    let regroup : r * 16 ^ suc k + number bytes (suc k) ≡ (r * 16 + n) * 16 ^ k + number bytes k =
      omega (arith, number-suc bytes k, ap (λ (t : ℕ). r * t) p) in
    let lt' : (r * 16 + n) * 16 ^ k + number bytes k < 2 ^ 32 = omega (arith, regroup) in
    let small = lt_of_scaled (r * 16 + n) (16 ^ k) (number bytes k) (2 ^ 32) (one_le_pow k) lt' in
    let cut : (r * 16 + n) % 2 ^ 32 ≡ r * 16 + n = omega arith in
    rw (get_nibble-nibble front bytes k (omega arith), ◌>>=◌, cut, regroup)
      (raw_loop-number front bytes k (r * 16 + n) (omega arith) lt')

number-lt : (bytes : List ℕ) (k : ℕ) → AreBytes bytes → number bytes k < 16 ^ k
unfolding number
number-lt [] k h = one_le_pow k
number-lt (b ∷ bytes) zero h = omega arith
number-lt (b ∷ bytes) (suc zero) h = omega arith
number-lt (b ∷ bytes) (suc (suc k)) (hb, h) = omega (arith, number-lt bytes k h, pow_two_more k)

-- The loop over at most 8 nibbles reads the little-endian number that they stand for, and its 32-bit
-- arithmetic loses nothing.
pub raw_value-number :
    (front bytes : List ℕ) (k : ℕ)
    → AreBytes bytes
    → k ≤ 8
    → k ≤ 2 * length bytes
    → raw_value (length front) k (front ++ bytes) ≡ ok (number bytes k)
unfolding raw_value
raw_value-number front bytes k hb h8 h =
    let lt = number-lt bytes k hb in
    let le = pow-le-pow_right {n = 16} (omega arith) h8 in
    let z : 0 * 16 ^ k + number bytes k ≡ number bytes k = omega arith in
    rw z at (raw_loop-number front bytes k 0 h (omega arith))

-- 12 bits in two's complement.
abbrev pub twelve_bits : ℕ → ℤ
twelve_bits c = if ltb c 2048 then pos c else negsuc (4095 - c)

abbrev same_sign : ℕ → Bool
same_sign c =
    (pos_part (extend_sign 3 c) == pos_part (twelve_bits c))
    && (neg_part (extend_sign 3 c) == neg_part (twelve_bits c))

extend_table : holds_below same_sign 4096 ≡ true
unfolding holds_below extend_sign
extend_table = refl

and_split : (a b : Bool) → (a && b) ≡ true → (a ≡ true) × (b ≡ true)
and_split a b h = ground arith

pub extend_sign-twelve_bits : (c : ℕ) → c < 4096 → extend_sign 3 c ≡ twelve_bits c
extend_sign-twelve_bits c h =
    let (p, n) =
      and_split (pos_part (extend_sign 3 c) == pos_part (twelve_bits c)) _
        (holds_below-at same_sign 4096 c h extend_table) in
    let ep = (==_iff _ _).0 p in
    let en = (==_iff _ _).0 n in
    eq_of_parts (extend_sign 3 c) (twelve_bits c) (omega (arith, ep, en))

-- The 12-bit readers (three nibbles: the lower byte and the low half of the next) on every packet of
-- bytes: the signed reader gives the two's complement value but throws on 0x7ff and on 0xfff, the code
-- of -1; the unsigned one throws on 0x7ff alone and takes 0xfff for a value.
pub nibble_value_three :
    (front rest : List ℕ) (lo hi : ℕ)
    → AreBytes rest
    → lo < 256
    → hi < 256
    → let c = lo + 256 * (hi % 16) in
      let packet = front ++ (lo ∷ hi ∷ rest) in
      (nibble_value (length front) true 3 packet
        ≡ (if (c == 0xfff) || (c == 0x7ff) then err invalid_data else ok (twelve_bits c)))
      × (nibble_value (length front) false 3 packet
          ≡ (if c == 0x7ff then err invalid_data else ok (pos c)))
unfolding nibble_value number
nibble_value_three front rest lo hi hr hl hh =
    let c = lo + 256 * (hi % 16) in
    let raw =
      raw_value-number front (lo ∷ hi ∷ rest) 3 (hl, (hh, hr)) (omega arith) (omega arith) in
    let small : c < 4096 = omega arith in
    (
      rw (raw, ◌>>=◌) (rw (extend_sign-twelve_bits c small) (ground arith)),
      rw (raw, ◌>>=◌) (ground arith),
    )
