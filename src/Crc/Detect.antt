-- ===== src/Crc/Detect.antt =====
-- What the check sum of lib/crc.c detects.
use Prim.Native.Nat.{bit_xor}
use meteo.Base.{
  ℕ, ◌+◌, ◌*◌, ◌/◌, ◌%◌, ◌<◌, ◌≡◌, refl, sym, ap, ◌∙◌, ◌↔◌, true, List, [], ◌∷◌, ◌++◌, arith,
  get_or, AreBytes, ==_iff, ◌==◌, ltb, ltb→lt, holds_below, holds_below-at,
}
use meteo.Base.Int.{pos, sub_ℕ}
use meteo.Crc.{crc_table, crc_addbyte, crc_start, crc_bytes, crc_cmp, crc_check}
use meteo.Crc.Xor.{zero-xor, xor_self, xor_zero, xor_injective, xor_comm, xor-div, xor-mod, xor-lt}

abbrev pub entry : ℕ → ℕ
entry i = get_or crc_table i 0

-- Each entry fits two bytes.
entries_fit : holds_below (λ i. ltb (entry i) 65536) 256 ≡ true
unfolding holds_below
entries_fit = refl

pub entry_bound : (i : ℕ) → i < 256 → entry i < 65536
entry_bound i h = ltb→lt _ _ (holds_below-at (λ j. ltb (entry j) 65536) 256 i h entries_fit)

-- The entry with a given low byte: the low bytes of the table are all different.
index_of : ℕ → ℕ → List ℕ → ℕ
index_of v i [] = i
index_of v i (x ∷ xs) = elim (x % 256 == v) [ true ↦ i | _ ↦ index_of v (i + 1) xs ]

low_bytes_table : holds_below (λ i. index_of (entry i % 256) 0 crc_table == i) 256 ≡ true
unfolding holds_below index_of
low_bytes_table = refl

low_byte_injective : (i j : ℕ) → i < 256 → j < 256 → entry i % 256 ≡ entry j % 256 → i ≡ j
low_byte_injective i j hi hj e =
    let back = λ (k : ℕ) (h : k < 256).
      (==_iff _ k).0
        (holds_below-at (λ l. index_of (entry l % 256) 0 crc_table == l) 256 k h low_bytes_table) in
    sym (back i hi) ∙ ap (λ (v : ℕ). index_of v 0 crc_table) e ∙ back j hj

-- The two bytes of the sum after one more byte.
index : ℕ → ℕ → ℕ
index crc c = bit_xor (crc / 256) c

index-lt : (crc c : ℕ) → crc < 65536 → c < 256 → index crc c < 256
unfolding index
index-lt crc c h k = xor-lt (crc / 256) c (omega arith) k

addbyte_low : (crc c : ℕ) → crc_addbyte crc c % 256 ≡ entry (index crc c) % 256
unfolding crc_addbyte index
addbyte_low crc c =
    let e = xor-mod (entry (bit_xor (crc / 256) c)) (crc * 256) in
    let z : crc * 256 % 256 ≡ 0 = omega arith in omega (arith, (rw z at e) ∙ xor_zero _)

addbyte_high :
    (crc c : ℕ)
    → crc < 65536
    → c < 256
    → crc_addbyte crc c / 256 ≡ bit_xor (entry (index crc c) / 256) (crc % 256)
unfolding crc_addbyte index
addbyte_high crc c h k =
    let i = bit_xor (crc / 256) c in
    let e = xor-div (entry i) (crc * 256) in
    let z : crc * 256 / 256 ≡ crc = omega arith in
    let e' : bit_xor (entry i) (crc * 256) / 256 ≡ bit_xor (entry i / 256) crc = rw z at e in
    let m = xor-mod (entry i / 256) crc in
    let b = entry_bound i (xor-lt (crc / 256) c (omega arith) k) in
    let f : entry i / 256 % 256 ≡ entry i / 256 = omega arith in omega (arith, e', rw f at m)

pub addbyte-lt : (crc c : ℕ) → crc_addbyte crc c < 65536
unfolding crc_addbyte
addbyte-lt crc c = omega arith

-- Equal sums come from equal indices.
index_injective :
    (s t a b : ℕ)
    → s < 65536
    → t < 65536
    → a < 256
    → b < 256
    → crc_addbyte s a ≡ crc_addbyte t b
    → (index s a ≡ index t b) × (s % 256 ≡ t % 256)
index_injective s t a b hs ht ha hb e =
    let low = sym (addbyte_low s a) ∙ ap (λ (x : ℕ). x % 256) e ∙ addbyte_low t b in
    let same = low_byte_injective _ _ (index-lt s a hs ha) (index-lt t b ht hb) low in
    let high = sym (addbyte_high s a hs ha) ∙ ap (λ (x : ℕ). x / 256) e ∙ addbyte_high t b ht hb in
    (same, xor_injective _ _ _ (rw same at high))

-- After the same sum, different bytes give different sums.
addbyte_byte_injective :
    (s a b : ℕ) → s < 65536 → a < 256 → b < 256 → crc_addbyte s a ≡ crc_addbyte s b → a ≡ b
unfolding index
addbyte_byte_injective s a b hs ha hb e =
    xor_injective (s / 256) a b (index_injective s s a b hs hs ha hb e).0

-- The same byte leaves different sums different.
addbyte_sum_injective :
    (s t c : ℕ) → s < 65536 → t < 65536 → c < 256 → crc_addbyte s c ≡ crc_addbyte t c → s ≡ t
unfolding index
addbyte_sum_injective s t c hs ht hc e =
    let (same, low) = index_injective s t c c hs ht hc hc e in
    let high =
      xor_injective c (s / 256) (t / 256) (xor_comm c (s / 256) ∙ same ∙ xor_comm (t / 256) c) in
    omega arith

pub bytes-lt : (s : ℕ) (buffer : List ℕ) → s < 65536 → crc_bytes s buffer < 65536
unfolding crc_bytes
bytes-lt s [] h = h
bytes-lt s (c ∷ buffer) h = bytes-lt (crc_addbyte s c) buffer (addbyte-lt s c)

pub bytes-append : (s : ℕ) (xs ys : List ℕ) → crc_bytes s (xs ++ ys) ≡ crc_bytes (crc_bytes s xs) ys
unfolding crc_bytes
bytes-append s [] ys = refl
bytes-append s (x ∷ xs) ys = bytes-append (crc_addbyte s x) xs ys

bytes_injective :
    (s t : ℕ) (rest : List ℕ)
    → s < 65536
    → t < 65536
    → AreBytes rest
    → crc_bytes s rest ≡ crc_bytes t rest
    → s ≡ t
unfolding crc_bytes
bytes_injective s t [] hs ht h e = e
bytes_injective s t (c ∷ rest) hs ht (hc, h) e =
    addbyte_sum_injective s t c hs ht hc (
      bytes_injective (crc_addbyte s c) (crc_addbyte t c) rest (addbyte-lt s c) (addbyte-lt t c) h
        e)

-- Two messages that differ in at most two neighbouring bytes, and do differ there, have different
-- check sums: with the same front, and the same bytes behind, equal sums force equal pairs.
pub burst_detected :
    (front rest : List ℕ) (a b a' b' : ℕ)
    → AreBytes rest
    → a < 256
    → b < 256
    → a' < 256
    → b' < 256
    → crc_bytes crc_start (front ++ (a ∷ b ∷ rest))
      ≡ crc_bytes crc_start (front ++ (a' ∷ b' ∷ rest))
    → (a ≡ a') × (b ≡ b')
unfolding crc_bytes crc_start
burst_detected front rest a b a' b' h ha hb ha' hb' e =
    let s = crc_bytes 0 front in
    let hs = bytes-lt 0 front (omega arith) in
    let tails : crc_bytes (crc_addbyte (crc_addbyte s a) b) rest
        ≡ crc_bytes (crc_addbyte (crc_addbyte s a') b') rest =
      sym (bytes-append 0 front (a ∷ b ∷ rest)) ∙ e ∙ bytes-append 0 front (a' ∷ b' ∷ rest) in
    let u = crc_addbyte s a in
    let u' = crc_addbyte s a' in
    let sums = bytes_injective _ _ rest (addbyte-lt u b) (addbyte-lt u' b') h tails in
    let low = (index_injective u u' b b' (addbyte-lt s a) (addbyte-lt s a') hb hb' sums).1 in
    let first : index s a ≡ index s a' =
      low_byte_injective _ _ (index-lt s a hs ha) (index-lt s a' hs ha')
        (sym (addbyte_low s a) ∙ low ∙ addbyte_low s a') in
    let same : a ≡ a' = unfold index in xor_injective (s / 256) a a' first in
    (
      same,
      addbyte_byte_injective u b b' (addbyte-lt s a) hb hb'
          (sums ∙ ap (λ (x : ℕ). crc_addbyte (crc_addbyte s x) b') (sym same)),
    )

-- `crc_check` returns 0 exactly if the buffer has the given sum.
pub check_iff :
    (crc : ℕ) (buffer : List ℕ)
    → (crc_check crc buffer ≡ pos 0) ↔ (crc_bytes crc_start buffer ≡ crc)
unfolding crc_check crc_cmp
check_iff crc buffer = (λ h. ground arith, λ h. ground arith)

-- The byte that equals the high byte of the sum only shifts it.
addbyte_same : (s c : ℕ) → c ≡ s / 256 → crc_addbyte s c ≡ s * 256 % 65536
unfolding crc_addbyte
addbyte_same s c e = rw (e, xor_self (s / 256), zero-xor (s * 256)) refl

-- A message of bytes followed by its own sum, high byte first, has the sum 0.
pub bytes-append_sum :
    (buffer : List ℕ)
    → let crc = crc_bytes crc_start buffer in
      crc_bytes crc_start (buffer ++ (crc / 256 ∷ crc % 256 ∷ [])) ≡ 0
unfolding crc_bytes crc_start
bytes-append_sum buffer =
    let s = crc_bytes 0 buffer in
    let h = bytes-lt 0 buffer (omega arith) in
    let e = addbyte_same s (s / 256) refl in
    bytes-append 0 buffer (s / 256 ∷ s % 256 ∷ [])
    ∙ addbyte_same (crc_addbyte s (s / 256)) (s % 256) (omega arith)
    ∙ omega arith

-- `crc_check` as the difference of the two sums.
pub check-sub_ℕ :
    (crc : ℕ) (buffer : List ℕ) → crc_check crc buffer ≡ sub_ℕ (crc_bytes crc_start buffer) crc
unfolding crc_check crc_cmp
check-sub_ℕ crc buffer = refl
