-- ===== src/Crc/Xor.antt =====
-- The laws of exclusive or that lib/crc.c rests on, from the digit recursion of `bit_xor`.
use Prim.Native.Nat.{bit_xor, bit_xor-bitwise, digits, differ}
use meteo.Base.{ℕ, zero, suc, ◌+◌, ◌*◌, ◌/◌, ◌%◌, ◌≤◌, ◌<◌, ◌≡◌, refl, ap, arith, ◌∙◌}

abbrev xor_digits : ℕ → ℕ → ℕ → ℕ
xor_digits n a b = digits (λ b. b) differ n a b

xor_digits_fuel : (n m a b : ℕ) → a ≤ n → a ≤ m → xor_digits n a b ≡ xor_digits m a b
xor_digits_fuel zero zero a b p q = refl
xor_digits_fuel zero (suc m) zero b p q = refl
xor_digits_fuel zero (suc m) (suc a) b p q = absurd (omega arith)
xor_digits_fuel (suc n) zero zero b p q = refl
xor_digits_fuel (suc n) zero (suc a) b p q = absurd (omega arith)
xor_digits_fuel (suc n) (suc m) zero b p q = refl
xor_digits_fuel (suc n) (suc m) (suc a) b p q =
    rw (xor_digits_fuel n m (suc a / 2) (b / 2) (omega arith) (omega arith))

pub zero-xor : (b : ℕ) → bit_xor 0 b ≡ b
zero-xor b = bit_xor-bitwise 0 b

differ_digits : (x y : ℕ) → x < 2 → y < 2 → differ x y ≡ (x + y) % 2
differ_digits zero zero p q = refl
differ_digits zero (suc zero) p q = refl
differ_digits zero (suc (suc y)) p q = absurd (omega arith)
differ_digits (suc zero) zero p q = refl
differ_digits (suc zero) (suc zero) p q = refl
differ_digits (suc zero) (suc (suc y)) p q = absurd (omega arith)
differ_digits (suc (suc x)) y p q = absurd (omega arith)

-- The lowest digit, with no fuel.
pub xor_step : (a b : ℕ) → bit_xor a b ≡ bit_xor (a / 2) (b / 2) * 2 + (a + b) % 2
xor_step zero b = omega (arith, zero-xor b, zero-xor (b / 2))
xor_step (suc a) b = omega (
  arith,
  bit_xor-bitwise (suc a) b,
  bit_xor-bitwise (suc a / 2) (b / 2),
  xor_digits_fuel a (suc a / 2) (suc a / 2) (b / 2) (omega arith) (omega arith),
  differ_digits (suc a % 2) (b % 2) (omega arith) (omega arith),
)

xor_half : (a b : ℕ) → bit_xor a b / 2 ≡ bit_xor (a / 2) (b / 2)
xor_half a b = omega (arith, xor_step a b)

xor_low : (a b : ℕ) → bit_xor a b % 2 ≡ (a + b) % 2
xor_low a b = omega (arith, xor_step a b)

-- Two numbers are equal if their halves and their lowest digits are.
eq_of_half : (x y : ℕ) → x / 2 ≡ y / 2 → x % 2 ≡ y % 2 → x ≡ y
eq_of_half x y p q = omega arith

-- The laws by strong induction, with the first number as fuel.
xor_assoc_fuel : (n a b c : ℕ) → a + b + c ≤ n → bit_xor (bit_xor a b) c ≡ bit_xor a (bit_xor b c)
xor_assoc_fuel n zero b c h = rw (zero-xor b, zero-xor (bit_xor b c))
xor_assoc_fuel zero (suc a) b c h = absurd (omega arith)
xor_assoc_fuel (suc n) (suc a) b c h =
    eq_of_half _ _
      (rw (xor_half, xor_half, xor_half, xor_half)
        (xor_assoc_fuel n (suc a / 2) (b / 2) (c / 2) (omega arith)))
      (omega (
        arith,
        xor_low (bit_xor (suc a) b) c,
        xor_low (suc a) b,
        xor_low (suc a) (bit_xor b c),
        xor_low b c,
      ))

pub xor_assoc : (a b c : ℕ) → bit_xor (bit_xor a b) c ≡ bit_xor a (bit_xor b c)
xor_assoc a b c = xor_assoc_fuel (a + b + c) a b c (omega arith)

xor_self_fuel : (n a : ℕ) → a ≤ n → bit_xor a a ≡ 0
xor_self_fuel n zero h = zero-xor 0
xor_self_fuel zero (suc a) h = absurd (omega arith)
xor_self_fuel (suc n) (suc a) h =
    omega (arith, xor_step (suc a) (suc a), xor_self_fuel n (suc a / 2) (omega arith))

pub xor_self : (a : ℕ) → bit_xor a a ≡ 0
xor_self a = xor_self_fuel a a (omega arith)

xor_comm_fuel : (n a b : ℕ) → a + b ≤ n → bit_xor a b ≡ bit_xor b a
xor_comm_fuel zero zero zero h = refl
xor_comm_fuel zero zero (suc b) h = absurd (omega arith)
xor_comm_fuel zero (suc a) b h = absurd (omega arith)
xor_comm_fuel (suc n) zero zero h = refl
xor_comm_fuel (suc n) zero (suc b) h =
    omega
      (arith, xor_step 0 (suc b), xor_step (suc b) 0, xor_comm_fuel n 0 (suc b / 2) (omega arith))
xor_comm_fuel (suc n) (suc a) b h = omega (
  arith,
  xor_step (suc a) b,
  xor_step b (suc a),
  xor_comm_fuel n (suc a / 2) (b / 2) (omega arith),
)

pub xor_comm : (a b : ℕ) → bit_xor a b ≡ bit_xor b a
xor_comm a b = xor_comm_fuel (a + b) a b (omega arith)

pub xor_zero : (a : ℕ) → bit_xor a 0 ≡ a
xor_zero a = xor_comm a 0 ∙ zero-xor a

pub xor_cancel : (a b : ℕ) → bit_xor a (bit_xor a b) ≡ b
xor_cancel a b = rw (← xor_assoc a a b, xor_self a) (zero-xor b)

pub xor_injective : (a b c : ℕ) → bit_xor a b ≡ bit_xor a c → b ≡ c
xor_injective a b c h = cc (xor_cancel a b, xor_cancel a c)

-- `k` digits off the low end, and the `k` low digits.
halves : ℕ → ℕ → ℕ
halves zero a = a
halves (suc k) a = halves k (a / 2)

lows : ℕ → ℕ → ℕ
lows zero a = 0
lows (suc k) a = lows k (a / 2) * 2 + a % 2

halves-xor : (k a b : ℕ) → halves k (bit_xor a b) ≡ bit_xor (halves k a) (halves k b)
unfolding halves
halves-xor zero a b = refl
halves-xor (suc k) a b = rw (xor_half a b) (halves-xor k (a / 2) (b / 2))

xor_pair :
    (p q r s : ℕ) → r < 2 → s < 2 → bit_xor (p * 2 + r) (q * 2 + s) ≡ bit_xor p q * 2 + (r + s) % 2
xor_pair p q r s hr hs =
    let ep : (p * 2 + r) / 2 ≡ p = omega arith in
    let eq : (q * 2 + s) / 2 ≡ q = omega arith in
    let e = xor_step (p * 2 + r) (q * 2 + s) in omega (arith, rw (ep, eq) at e)

lows-xor : (k a b : ℕ) → lows k (bit_xor a b) ≡ bit_xor (lows k a) (lows k b)
unfolding lows
lows-xor zero a b = refl
lows-xor (suc k) a b = omega (
  arith,
  xor_pair (lows k (a / 2)) (lows k (b / 2)) (a % 2) (b % 2) (omega arith) (omega arith),
  xor_low a b,
  ap (lows k) (xor_half a b),
  lows-xor k (a / 2) (b / 2),
)

-- The two bytes of an exclusive or.
halves_8 : (a : ℕ) → halves 8 a ≡ a / 256
unfolding halves
halves_8 a = omega arith

lows_8 : (a : ℕ) → lows 8 a ≡ a % 256
unfolding lows
lows_8 a = omega arith

pub xor-div : (a b : ℕ) → bit_xor a b / 256 ≡ bit_xor (a / 256) (b / 256)
xor-div a b = rw (← halves_8 (bit_xor a b), ← halves_8 a, ← halves_8 b) (halves-xor 8 a b)

pub xor-mod : (a b : ℕ) → bit_xor a b % 256 ≡ bit_xor (a % 256) (b % 256)
xor-mod a b = rw (← lows_8 (bit_xor a b), ← lows_8 a, ← lows_8 b) (lows-xor 8 a b)

lows_16 : (a : ℕ) → lows 16 a ≡ a % 65536
unfolding lows
lows_16 a = omega arith

pub xor-mod_16 : (a b : ℕ) → bit_xor a b % 65536 ≡ bit_xor (a % 65536) (b % 65536)
xor-mod_16 a b = rw (← lows_16 (bit_xor a b), ← lows_16 a, ← lows_16 b) (lows-xor 16 a b)

-- A byte stays a byte.
pub xor-lt : (a b : ℕ) → a < 256 → b < 256 → bit_xor a b < 256
xor-lt a b ha hb =
    let ea : a / 256 ≡ 0 = omega arith in
    let eb : b / 256 ≡ 0 = omega arith in
    let e = xor-div a b in
    let z : bit_xor a b / 256 ≡ 0 = (rw (ea, eb) at e) ∙ zero-xor 0 in omega arith

-- The top bit of a 16-bit number, and a shift by one.
halves_15 : (a : ℕ) → halves 15 a ≡ a / 32768
unfolding halves
halves_15 a = omega arith

pub xor-top : (a b : ℕ) → bit_xor a b / 32768 ≡ bit_xor (a / 32768) (b / 32768)
xor-top a b = rw (← halves_15 (bit_xor a b), ← halves_15 a, ← halves_15 b) (halves-xor 15 a b)

pub xor-double : (a b : ℕ) → bit_xor a b * 2 ≡ bit_xor (a * 2) (b * 2)
xor-double a b =
    let ea : (a * 2) / 2 ≡ a = omega arith in
    let eb : (b * 2) / 2 ≡ b = omega arith in
    let e = xor_step (a * 2) (b * 2) in omega (arith, rw (ea, eb) at e)

pub xor-scale : (k a b : ℕ) → a < 2 → b < 2 → bit_xor a b * k ≡ bit_xor (a * k) (b * k)
xor-scale k zero b ha hb =
    let z : 0 * k ≡ 0 = omega arith in rw (z, zero-xor b, zero-xor (b * k)) refl
xor-scale k (suc zero) zero ha hb = let z : 0 * k ≡ 0 = omega arith in rw (z, xor_zero (1 * k)) refl
xor-scale k (suc zero) (suc zero) ha hb = rw (xor_self (1 * k)) (omega arith)
xor-scale k (suc zero) (suc (suc b)) ha hb = absurd (omega arith)
xor-scale k (suc (suc a)) b ha hb = absurd (omega arith)
