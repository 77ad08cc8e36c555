-- ===== src/Crc/Polynomial.antt =====
-- The table of lib/crc.c is that of the polynomial x^16 + x^12 + x^5 + 1, taken bit by bit.
use Prim.Native.Nat.{bit_xor}
use meteo.Base.{
  ℕ, zero, suc, ◌+◌, ◌*◌, ◌/◌, ◌%◌, ◌<◌, ◌≡◌, refl, sym, ap, ◌∙◌, true, arith, get_or, ==_iff, ◌==◌,
  holds_below, holds_below-at,
}
use mathlib.Core.Path.{ap₂}
use meteo.Crc.{crc_table, crc_addbyte}
use meteo.Crc.Detect.{entry_bound}
use meteo.Crc.Xor.{
  xor-top, xor-double, xor-scale, xor_assoc, xor_comm, xor-div, xor-mod, xor-mod_16, xor-lt,
  zero-xor, xor_zero,
}

-- One bit of the division: shift a 16-bit remainder, and subtract the polynomial 0x1021 if a one
-- falls out at the top.
shift_bit : ℕ → ℕ
shift_bit x = bit_xor (x * 2 % 65536) (x / 32768 * 0x1021)

shift_bits : ℕ → ℕ → ℕ
shift_bits zero x = x
shift_bits (suc k) x = shift_bits k (shift_bit x)

-- Division of one more byte, with no table.
pub divide_byte : ℕ → ℕ → ℕ
divide_byte crc c = shift_bits 8 (bit_xor crc (c * 256))

xor_middle :
    (a b c d : ℕ) → bit_xor (bit_xor a b) (bit_xor c d) ≡ bit_xor (bit_xor a c) (bit_xor b d)
xor_middle a b c d = cc (
  xor_assoc a b (bit_xor c d),
  xor_assoc b c d,
  xor_comm b c,
  xor_assoc c b d,
  xor_assoc a c (bit_xor b d),
)

xor_fields : (h l : ℕ) → l < 256 → bit_xor (h * 256) l ≡ h * 256 + l
xor_fields h l k =
    let eh : h * 256 / 256 ≡ h = omega arith in
    let el : h * 256 % 256 ≡ 0 = omega arith in
    let zl : l / 256 ≡ 0 = omega arith in
    let ml : l % 256 ≡ l = omega arith in
    let high = rw (eh, zl) at (xor-div (h * 256) l) in
    let low = rw (el, ml) at (xor-mod (h * 256) l) in
    omega (arith, high ∙ xor_zero h, low ∙ zero-xor l)

shift_bit-lt : (x : ℕ) → x < 65536 → shift_bit x < 65536
unfolding shift_bit
shift_bit-lt x h =
    let e = xor-mod_16 (x * 2) (x / 32768 * 0x1021) in
    let small : x / 32768 * 0x1021 % 65536 ≡ x / 32768 * 0x1021 = omega arith in
    let e' = rw small at e in
    let m : bit_xor (x * 2) (x / 32768 * 0x1021) % 65536 < 65536 = omega arith in rw (← e') m

-- Division is linear.
shift_bit-xor :
    (a b : ℕ)
    → a < 65536
    → b < 65536
    → shift_bit (bit_xor a b) ≡ bit_xor (shift_bit a) (shift_bit b)
unfolding shift_bit
shift_bit-xor a b ha hb =
    let body : bit_xor a b * 2 % 65536 ≡ bit_xor (a * 2 % 65536) (b * 2 % 65536) =
      rw (xor-double a b) (xor-mod_16 (a * 2) (b * 2)) in
    let top : bit_xor a b / 32768 * 0x1021 ≡ bit_xor (a / 32768 * 0x1021) (b / 32768 * 0x1021) =
      rw (xor-top a b) (xor-scale 0x1021 (a / 32768) (b / 32768) (omega arith) (omega arith)) in
    rw (body, top)
      (xor_middle (a * 2 % 65536) (b * 2 % 65536) (a / 32768 * 0x1021) (b / 32768 * 0x1021))

shift_bits-xor :
    (k a b : ℕ)
    → a < 65536
    → b < 65536
    → shift_bits k (bit_xor a b) ≡ bit_xor (shift_bits k a) (shift_bits k b)
unfolding shift_bits
shift_bits-xor zero a b ha hb = refl
shift_bits-xor (suc k) a b ha hb =
    rw (shift_bit-xor a b ha hb)
      (shift_bits-xor k (shift_bit a) (shift_bit b) (shift_bit-lt a ha) (shift_bit-lt b hb))

-- Both halves of a 16-bit number, at every value.
high_table : holds_below (λ i. shift_bits 8 (i * 256) == get_or crc_table i 0) 256 ≡ true
unfolding holds_below shift_bits shift_bit
high_table = refl

low_table : holds_below (λ i. shift_bits 8 i == (i * 256)) 256 ≡ true
unfolding holds_below shift_bits shift_bit
low_table = refl

high_byte : (i : ℕ) → i < 256 → shift_bits 8 (i * 256) ≡ get_or crc_table i 0
high_byte i h =
    (==_iff _ _).0
      (holds_below-at (λ j. shift_bits 8 (j * 256) == get_or crc_table j 0) 256 i h high_table)

low_byte : (i : ℕ) → i < 256 → shift_bits 8 i ≡ i * 256
low_byte i h = (==_iff _ _).0 (holds_below-at (λ j. shift_bits 8 j == (j * 256)) 256 i h low_table)

-- For a 16-bit sum and a byte, the table look-up of `crc_addbyte` is eight steps of division by the
-- polynomial.
pub addbyte-divide_byte :
    (crc c : ℕ) → crc < 65536 → c < 256 → crc_addbyte crc c ≡ divide_byte crc c
unfolding crc_addbyte divide_byte
addbyte-divide_byte crc c hs hc =
    let i = bit_xor (crc / 256) c in
    let l = crc % 256 in
    let hi : i < 256 = xor-lt (crc / 256) c (omega arith) hc in
    let hl : l < 256 = omega arith in
    let ec : c * 256 / 256 ≡ c = omega arith in
    let zc : c * 256 % 256 ≡ 0 = omega arith in
    let top = rw ec at (xor-div crc (c * 256)) in
    let bottom = rw zc at (xor-mod crc (c * 256)) in
    let whole : bit_xor crc (c * 256) ≡ bit_xor (i * 256) l =
      omega (arith, top, bottom ∙ xor_zero (crc % 256), xor_fields i l hl) in
    let fits : get_or crc_table i 0 % 65536 ≡ get_or crc_table i 0 =
      omega (arith, entry_bound i hi) in
    let cut : crc * 256 % 65536 ≡ l * 256 = omega arith in
    let table = rw (fits, cut) at (xor-mod_16 (get_or crc_table i 0) (crc * 256)) in
    table
    ∙ sym (
        ap (shift_bits 8) whole
        ∙ shift_bits-xor 8 (i * 256) l (omega arith) (omega arith)
        ∙ ap₂ bit_xor (high_byte i hi) (low_byte l hl))
