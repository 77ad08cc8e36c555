-- ===== src/Davis/Ack.antt =====
-- lib/DavisStation.cc, startLoop: what the wait for an acknowledgement accepts.
use meteo.Base.{
  ℕ, zero, suc, ◌<◌, ◌≡◌, refl, Bool, true, false, ◌||◌, List, [], ◌∷◌, map, is_ok, get_or, drop,
  All, ◌==◌, if◌then◌else◌, arith, leb, Bool-cases, inl, inr, sym, ap, ◌∙◌,
}
use native.Mathlib.Decide.{dec_lt}
use meteo.Channel.{Input, char}
use meteo.Davis.{ack, expect, ack_step, wait_ack}

pub contains : ℕ → List ℕ → Bool
contains a [] = false
contains a (c ∷ cs) = c == a || contains a cs

-- Whether the first text is found in the second with other characters between its own.
pub scattered : List ℕ → List ℕ → Bool
scattered [] cs = true
scattered (e ∷ es) [] = false
scattered (e ∷ es) (c ∷ cs) = scattered (if c == e then es else e ∷ es) cs

expect_at : (idx : ℕ) → idx < 6 → drop idx expect ≡ get_or expect idx 0 ∷ drop (suc idx) expect
expect_at zero h = refl
expect_at (suc zero) h = refl
expect_at (suc (suc zero)) h = refl
expect_at (suc (suc (suc zero))) h = refl
expect_at (suc (suc (suc (suc zero)))) h = refl
expect_at (suc (suc (suc (suc (suc zero))))) h = refl
expect_at (suc (suc (suc (suc (suc (suc n)))))) h = absurd (omega arith)

-- A round on a character below 128.
wait_ack_char :
    (idx c : ℕ) (rest : List Input)
    → c < 128
    → let (idx', done) = ack_step idx c in
      is_ok (wait_ack idx (char c ∷ rest)).0 ≡ (done || is_ok (wait_ack idx' rest).0)
unfolding wait_ack
wait_ack_char idx c rest h =
    let e : leb 128 c ≡ false = ground arith in
    rw e (elim (Bool-cases (ack_step idx c).1) [ inl d ↦ rw d | inr d ↦ rw d ])

scattered_nil : (cs : List ℕ) → scattered [] cs ≡ true
unfolding scattered
scattered_nil [] = refl
scattered_nil (c ∷ cs) = refl

step_last : (idx c : ℕ) → (c == get_or expect idx 0) ≡ true → idx ≡ 5 → (ack_step idx c).1 ≡ true
unfolding ack_step
step_last idx c hit e = rw hit (ground arith)

step_hit :
    (idx c : ℕ) → (c == get_or expect idx 0) ≡ true → idx < 5 → ack_step idx c ≡ (suc idx, c == ack)
unfolding ack_step
step_hit idx c hit h = rw hit (ground arith)

step_miss :
    (idx c : ℕ) → (c == get_or expect idx 0) ≡ false → idx < 6 → ack_step idx c ≡ (idx, c == ack)
unfolding ack_step
step_miss idx c miss h = rw miss (ground arith)

scattered_hit :
    (e c : ℕ) (es cs : List ℕ) → (c == e) ≡ true → scattered (e ∷ es) (c ∷ cs) ≡ scattered es cs
unfolding scattered
scattered_hit e c es cs h = ap (λ (b : Bool). scattered (if b then es else e ∷ es) cs) h

scattered_miss :
    (e c : ℕ) (es cs : List ℕ)
    → (c == e) ≡ false
    → scattered (e ∷ es) (c ∷ cs) ≡ scattered (e ∷ es) cs
unfolding scattered
scattered_miss e c es cs h = ap (λ (b : Bool). scattered (if b then es else e ∷ es) cs) h

contains-cons : (a c : ℕ) (cs : List ℕ) → contains a (c ∷ cs) ≡ (c == a || contains a cs)
unfolding contains
contains-cons a c cs = refl

or_true : (a : Bool) → (a || true) ≡ true
or_true a = ground arith

or_assoc : (a b c : Bool) → (a || (b || c)) ≡ ((a || b) || c)
or_assoc a b c = ground arith

wait_ack_from :
    (idx : ℕ) (cs : List ℕ)
    → idx < 6
    → All (λ c. c < 128) cs
    → is_ok (wait_ack idx (map char cs)).0 ≡ (contains ack cs || scattered (drop idx expect) cs)
wait_ack_from idx [] h a = rw (expect_at idx h) (unfold wait_ack contains scattered in refl)
wait_ack_from idx (c ∷ cs) h (lt, a) =
    let e = get_or expect idx 0 in
    let es = drop (suc idx) expect in
    rw (wait_ack_char idx c (map char cs) lt, expect_at idx h, contains-cons ack c cs)
      (elim (Bool-cases (c == e)) [
        | inl hit ↦ rw (scattered_hit e c es cs hit) (elim (dec_lt idx 5) [
          | no last ↦
              let five : idx ≡ 5 = omega arith in
              let done =
                ap (λ (i : ℕ). scattered (drop (suc i) expect) cs) five ∙ scattered_nil cs in
              rw (step_last idx c hit five, done) (sym (or_true (c == ack || contains ack cs)))
          | yes more ↦
              rw (step_hit idx c hit more)
                (rw (wait_ack_from (suc idx) cs (omega arith) a) (or_assoc (c == ack) _ _))
        ])
        | inr miss ↦
            rw (scattered_miss e c es cs miss, step_miss idx c miss h)
              (rw (wait_ack_from idx cs h a, expect_at idx h) (or_assoc (c == ack) _ _))
      ])

-- On a line of characters below 128 the wait ends with success exactly if an ACK comes, or the
-- characters of "\r\nOK\n\r" come in this order, whatever stands between them.
pub wait_ack-scattered :
    (cs : List ℕ)
    → All (λ c. c < 128) cs
    → is_ok (wait_ack 0 (map char cs)).0 ≡ (contains ack cs || scattered expect cs)
wait_ack-scattered cs a = wait_ack_from 0 cs (omega arith) a
