-- ===== src/Value/Count.antt =====
-- The counts of lib/Value.cc: how the handles on each address change with one operation.
use meteo.Base.{
  ℕ, zero, suc, ◌+◌, ◌-◌, ◌<◌, ◌≤◌, ◌==◌, ◌≡◌, refl, List, [], ◌∷◌, ◌++◌, Option, none, some, ok,
  if◌then◌else◌, get_elem?, arith, ap, Bool-cases, inl, inr,
}
use meteo.Base.Int.{ℤ, pos, ◌+ℤ◌, ◌-ℤ◌}
use meteo.Value.{
  Handle, null, uninitialised, ended, to, Cell, Cells, set_handle, put, initialised, retain,
  release, kept,
}

-- The handles on an address.
abbrev pub hits : Handle → ℕ → ℕ
hits null a = 0
hits uninitialised a = 0
hits ended a = 0
hits (to b) a = if b == a then 1 else 0

abbrev pub count : List Handle → ℕ → ℕ
count [] a = 0
count (h ∷ hs) a = hits h a + count hs a

pub count-append : (hs ks : List Handle) (a : ℕ) → count (hs ++ ks) a ≡ count hs a + count ks a
count-append [] ks a = omega arith
count-append (h ∷ hs) ks a = omega (arith, count-append hs ks a)

pub count-set_handle :
    (hs : List Handle) (i : ℕ) (h k : Handle) (a : ℕ)
    → get_elem? hs i ≡ some k
    → count (set_handle i h hs) a + hits k a ≡ count hs a + hits h a
count-set_handle [] i h k a e = absurd (ground (arith, e))
count-set_handle (k' ∷ hs) zero h k a e =
    let same : hits k' a ≡ hits k a = ap (λ o. elim o [ none ↦ 0 | some x ↦ hits x a ]) e in
    omega arith
count-set_handle (k' ∷ hs) (suc i) h k a e = omega (arith, count-set_handle hs i h k a e)

pub hits-count :
    (hs : List Handle) (i : ℕ) (k : Handle) (a : ℕ)
    → get_elem? hs i ≡ some k
    → hits k a ≤ count hs a
hits-count hs i k a e = omega (arith, count-set_handle hs i null k a e)

more : (n : ℕ) → pos n +ℤ pos 1 ≡ pos (n + 1)
unfolding ◌+ℤ◌
more n = ground arith

less : (n : ℕ) → 0 < n → pos n -ℤ pos 1 ≡ pos (n - 1)
unfolding ◌-ℤ◌
less n p = ground arith

module _ {A : Type 0} where
  -- A cell that stands for `n` handles.
  abbrev pub Backs : Option (Cell A) → ℕ → Type 0
  Backs none n = n ≡ 0
  Backs (some c) n = (c.refcount ≡ pos n) × (0 < n)

  counted_cell :
      (o : Option (Cell A)) (n : ℕ)
      → Backs o n
      → 0 < n
      → (c : Cell A) × (o ≡ some c) × (c.refcount ≡ pos n)
  counted_cell none n b p = absurd (omega arith)
  counted_cell (some c) n b p = (c, refl, b.0)

  -- Counting is kept at all addresses.
  abbrev pub IsCounted : Cells A → (ℕ → ℕ) → Type 0
  IsCounted m w = (a : ℕ) → Backs (m a) (w a)

  pub along_count : (o : Option (Cell A)) (n k : ℕ) → n ≡ k → Backs o n → Backs o k
  along_count o n k e b = rw (← e) b

  pub put-Backs :
      (m : Cells A) (w : ℕ → ℕ) (a : ℕ) (o : Option (Cell A)) (n : ℕ) (b : ℕ)
      → IsCounted m w
      → Backs o n
      → Backs (put a o m b) (if a == b then n else w b)
  put-Backs m w a o n b all here = elim (Bool-cases (a == b)) [
    | inl e ↦ rw (e) here
    | inr e ↦ rw (e) (all b)
  ]

  retain_to :
      (a : ℕ) (m : Cells A) (w : ℕ → ℕ)
      → IsCounted m w
      → 0 < w a
      → (m' : Cells A) × (retain (to a) m ≡ ok m') × IsCounted m' (λ b. w b + hits (to a) b)
  unfolding retain
  retain_to a m w all p =
      let (c, e, r) = counted_cell (m a) (w a) (all a) p in
      let c' = record c { refcount = c.refcount +ℤ pos 1 } in
      let here : Backs (some c') (w a + 1) = (rw r (more (w a)), omega arith) in
      (
        put a (some c') m,
        rw e refl,
        λ b. along_count _ _ _ (ground arith) (put-Backs m w a (some c') (w a + 1) b all here),
      )

  kept-Backs : (z : ℤ) (n : ℕ) (v : A) → z ≡ pos n → Backs (kept z v) n
  kept-Backs z zero v e = rw e refl
  kept-Backs z (suc n) v e = rw e (refl, omega arith)

  release_to :
      (a : ℕ) (m : Cells A) (w : ℕ → ℕ)
      → IsCounted m w
      → 0 < w a
      → (m' : Cells A) × (release (to a) m ≡ ok m') × IsCounted m' (λ b. w b - hits (to a) b)
  unfolding release
  release_to a m w all p =
      let (c, e, r) = counted_cell (m a) (w a) (all a) p in
      let c' = kept (c.refcount -ℤ pos 1) c.object in
      let here : Backs c' (w a - 1) =
        kept-Backs (c.refcount -ℤ pos 1) (w a - 1) c.object (rw r (less (w a) p)) in
      (
        put a c' m,
        rw e refl,
        λ b. along_count _ _ _ (ground arith) (put-Backs m w a c' (w a - 1) b all here),
      )

  pub retain_live :
      (h : Handle) (m : Cells A) (w : ℕ → ℕ)
      → IsCounted m w
      → initialised (some h) ≡ ok h
      → ((b : ℕ) → hits h b ≤ w b)
      → (m' : Cells A) × (retain h m ≡ ok m') × IsCounted m' (λ b. w b + hits h b)
  unfolding retain
  retain_live null m w all live under = (m, refl, λ b. along_count _ _ _ (omega arith) (all b))
  retain_live uninitialised m w all live under = absurd (ground (arith, live))
  retain_live ended m w all live under = absurd (ground (arith, live))
  retain_live (to a) m w all live under =
      let p : 0 < w a = ground (arith, under a) in retain_to a m w all p

  pub release_live :
      (h : Handle) (m : Cells A) (w : ℕ → ℕ)
      → IsCounted m w
      → initialised (some h) ≡ ok h
      → ((b : ℕ) → hits h b ≤ w b)
      → (m' : Cells A) × (release h m ≡ ok m') × IsCounted m' (λ b. w b - hits h b)
  unfolding release
  release_live null m w all live under = (m, refl, λ b. along_count _ _ _ (omega arith) (all b))
  release_live uninitialised m w all live under = absurd (ground (arith, live))
  release_live ended m w all live under = absurd (ground (arith, live))
  release_live (to a) m w all live under =
      let p : 0 < w a = ground (arith, under a) in release_to a m w all p
