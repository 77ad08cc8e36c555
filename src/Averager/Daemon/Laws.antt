-- ===== src/Averager/Daemon/Laws.antt =====
-- When the daemon of src/meteoavg.cc computes which averages.
use native.Mathlib.Nat.{add-mod_right, mod-lt}
use meteo.Base.{
  map, leb, All, ℕ, zero, suc, ◌+◌, ◌-◌, ◌*◌, ◌/◌, ◌%◌, ◌==◌, ◌&&◌, ◌||◌, ◌≤◌, ◌<◌, ◌≡◌, ◌↔◌, sym,
  ap, ◌∙◌, Bool, true, false, List, [], ◌∷◌, Bool-cases, inl, inr, ==_iff, arith,
}
use meteo.Base.Int.{ℤ}
use meteo.Tdata.{slots}
use meteo.Time.Offset.{timekey_of, timekey_of-add, sub_mod, timekey_of-sub}
use meteo.Averager.Daemon.{range_start, range_keys, Call, calls, wake, round_key, is_valid}

-- Each round that takes less than 270 seconds is followed by one for the next 300 seconds.
wake_lem :
    (delay : ℕ → ℕ) (start n : ℕ)
    → ((k : ℕ) → delay k < 270)
    → wake delay start n ≡ 300 * (start / 300 + n) + 330
wake_lem delay start zero prompt = omega arith
wake_lem delay start (suc n) prompt =
    let before = wake_lem delay start n prompt in
    let quick = prompt n in omega (arith, before, quick)

round_time :
    (delay : ℕ → ℕ) (start n : ℕ)
    → ((k : ℕ) → delay k < 270)
    → wake delay start n - wake delay start n % 300 ≡ 300 * (start / 300 + 1) + 300 * n
round_time delay start n prompt = let w = wake_lem delay start n prompt in omega (arith, w)

round_key_lem :
    (offset : ℤ) (delay : ℕ → ℕ) (start n : ℕ)
    → ((k : ℕ) → delay k < 270)
    → 1 ≤ round_key offset delay start 0
    → round_key offset delay start n ≡ round_key offset delay start 0 + 300 * n
round_key_lem offset delay start n prompt h =
    let first : round_key offset delay start 0 ≡ timekey_of offset (300 * (start / 300 + 1)) =
      ap (timekey_of offset) (round_time delay start 0 prompt ∙ omega arith) in
    let late : 1 ≤ timekey_of offset (300 * (start / 300 + 1)) = rw (sym first) h in
    ap (timekey_of offset) (round_time delay start n prompt)
    ∙ timekey_of-add offset (300 * (start / 300 + 1)) (300 * n) late
    ∙ ap (λ k. k + 300 * n) (sym first)

-- The call is one of the calls.
abbrev pub is_called : Call → List Call → Bool
is_called c [] = false
is_called c (b ∷ cs) = (c.timekey == b.timekey && c.interval == b.interval) || is_called c cs

abbrev pub is_interval : ℕ → Bool
is_interval i = i == 300 || (i == 1800 || (i == 7200 || i == 86400))

called_iff :
    (key i t : ℕ)
    → is_interval i ≡ true
    → 86400 ≤ t
    → (is_called (record { timekey = key; interval = i }) (calls t) ≡ true) ↔ (key + i ≡ t)
called_iff key i t h late = ground arith

whole_300 : (key i : ℕ) → is_interval i ≡ true → key % i ≡ 0 → (key + i) % 300 ≡ 0
whole_300 key i h e = elim (Bool-cases (i == 300)) [
  | inl a ↦
      let j = (==_iff i 300).0 a in let g : key % 300 ≡ 0 = rw (sym j) e in omega (arith, g, j)
  | inr a ↦ elim (Bool-cases (i == 1800)) [
    | inl b ↦
        let j = (==_iff i 1800).0 b in let g : key % 1800 ≡ 0 = rw (sym j) e in omega (arith, g, j)
    | inr b ↦ elim (Bool-cases (i == 7200)) [
      | inl c ↦
          let j = (==_iff i 7200).0 c in
          let g : key % 7200 ≡ 0 = rw (sym j) e in omega (arith, g, j)
      | inr c ↦
          let d : (i == 86400) ≡ true = ground (arith, a, b, c) in
          let j = (==_iff i 86400).0 d in
          let g : key % 86400 ≡ 0 = rw (sym j) e in omega (arith, g, j)
    ]
  ]
]

exact_round :
    (first end : ℕ)
    → first % 300 ≡ 0
    → end % 300 ≡ 0
    → first ≤ end
    → first + 300 * ((end - first) / 300) ≡ end
exact_round first end a b h = omega (arith, a, b, h)

same_round : (first n n' : ℕ) → first + 300 * n' ≡ first + 300 * n → n' ≡ n
same_round first n n' e = omega (arith, e)

-- A daemon whose rounds take less than 270 seconds each, at a station whose first timekey is a multiple of 300
-- and at least a day: for each of the four intervals and each timekey that the interval divides and whose
-- interval ends with the first round or later, there is exactly one round that asks for the averages of this
-- timekey and interval, and `add` does not skip them.
pub round-once :
    (offset : ℤ) (delay : ℕ → ℕ) (start key i : ℕ)
    → ((k : ℕ) → delay k < 270)
    → 86400 ≤ round_key offset delay start 0
    → round_key offset delay start 0 % 300 ≡ 0
    → is_interval i ≡ true
    → key % i ≡ 0
    → round_key offset delay start 0 ≤ key + i
    → (n : ℕ) × (is_called
          (record { timekey = key; interval = i })
          (calls (round_key offset delay start n))
        ≡ true)
      × (is_valid (record { timekey = key; interval = i }) ≡ true)
      × ((n' : ℕ)
          → is_called
              (record { timekey = key; interval = i })
              (calls (round_key offset delay start n'))
            ≡ true
          → n' ≡ n)
round-once offset delay start key i prompt late grid known divides ahead =
    let first = round_key offset delay start 0 in
    let n = (key + i - first) / 300 in
    let positive : 1 ≤ first = omega (arith, late) in
    let at_round = λ (k : ℕ). round_key_lem offset delay start k prompt positive in
    let whole = whole_300 key i known divides in
    let now : round_key offset delay start n ≡ key + i =
      at_round n ∙ exact_round first (key + i) grid whole ahead in
    let late_enough : 86400 ≤ round_key offset delay start n = omega (arith, at_round n, late) in
    (
      n,
      (called_iff key i (round_key offset delay start n) known late_enough).1 (sym now),
      (==_iff (key % i) 0).1 divides,
      λ n' asked.
          let late' : 86400 ≤ round_key offset delay start n' = omega (arith, at_round n', late) in
          let at_end : key + i ≡ round_key offset delay start n' =
            (called_iff key i (round_key offset delay start n') known late').0 asked in
          same_round first n n' (sym (at_round n') ∙ sym at_end ∙ sym now ∙ at_round n),
    )

slots-valid :
    (offset : ℤ) (n t tot interval : ℕ)
    → 1 ≤ timekey_of offset t
    → timekey_of offset t % interval ≡ 0
    → All (λ key. key % interval ≡ 0) (map (timekey_of offset) (slots n t tot interval))
slots-valid offset zero t tot interval late grid = tt
slots-valid offset (suc n) t tot interval late grid =
    let step = timekey_of-add offset t interval late in
    let next : timekey_of offset (t + interval) % interval ≡ 0 =
      ap (λ k. k % interval) step ∙ add-mod_right (timekey_of offset t) interval ∙ grid in
    let rest = slots-valid offset n (t + interval) tot interval (omega (arith, step, late)) next in
    elim (Bool-cases (leb t tot)) [
      | inl inside ↦ rw inside (grid, rest)
      | inr behind ↦ rw behind tt
    ]

-- For two times after 1970 by an interval at least, whatever the offset of the station is, the loop of meteoavg
-- over them asks for timekeys that the interval divides, so that `add` skips none of them.
pub range_keys-All :
    (offset : ℤ) (interval fromt tot : ℕ)
    → 1 ≤ interval
    → interval ≤ fromt
    → interval ≤ timekey_of offset fromt
    → All (λ key. key % interval ≡ 0) (range_keys offset interval fromt tot)
range_keys-All offset interval fromt tot one late late_key =
    let key = timekey_of offset fromt in
    let positive : 0 < interval = omega (arith, one) in
    let small = mod-lt key positive in
    let start = range_start offset interval fromt in
    let at_start =
      timekey_of-sub offset fromt (key % interval) (omega (arith, small, late_key))
        (omega (arith, small, late)) in
    slots-valid offset (tot + 1 - start) start tot interval
      (omega (arith, at_start, small, late_key))
      (ap (λ k. k % interval) at_start ∙ sub_mod key interval)
