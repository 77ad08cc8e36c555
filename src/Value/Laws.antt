-- ===== src/Value/Laws.antt =====
-- The handles of lib/Value.cc under the operations of a program.
use meteo.Base.{
  ℕ, ◌+◌, ◌<◌, ◌≤◌, ◌==◌, ◌≡◌, refl, List, [], ◌∷◌, ◌++◌, Option, none, some, Result, ok, ◌>>=◌,
  if◌then◌else◌, get_elem?, arith, ap, ◌∙◌, All, Bool-cases, inl, inr, ◌≢◌, sym,
}
use meteo.Base.Int.{pos}
use meteo.Value.{
  Handle, null, uninitialised, ended, to, Cell, Cells, Store, set_handle, handle, put, at,
  initialised, construct, declare, copy, assign, destroy, set_value, write, get_value,
}
use meteo.Value.Count.{
  hits, count, count-append, count-set_handle, hits-count, Backs, IsCounted, along_count, put-Backs,
  retain_live, release_live,
}

-- What a program does with its variables.
pub data Use (A : Type 0) : Type 0 where
  constructs : A → Use A
  declares : Use A
  copies : ℕ → Use A
  assigns : ℕ → ℕ → Use A
  destroys : ℕ → Use A
  sets : ℕ → A → Use A

initialised_ok :
    (o : Option Handle) (h : Handle)
    → initialised o ≡ ok h
    → (o ≡ some h) × (initialised (some h) ≡ ok h)
initialised_ok none h e = absurd (ground (arith, e))
initialised_ok (some null) h e = ground (arith, e)
initialised_ok (some uninitialised) h e = absurd (ground (arith, e))
initialised_ok (some ended) h e = absurd (ground (arith, e))
initialised_ok (some (to a)) h e = ground (arith, e)

count_none : (hs : List Handle) (a : ℕ) → All (λ h. h ≢ to a) hs → count hs a ≡ 0
count_none [] a _ = refl
count_none (null ∷ hs) a (_, rest) = omega (arith, count_none hs a rest)
count_none (uninitialised ∷ hs) a (_, rest) = omega (arith, count_none hs a rest)
count_none (ended ∷ hs) a (_, rest) = omega (arith, count_none hs a rest)
count_none (to b ∷ hs) a (other, rest) =
    let apart : b ≢ a = λ e. other (ap to e) in ground (arith, count_none hs a rest)

module _ {A : Type 0} where
  abbrev pub step : Use A → Store A → Result (Store A)
  step (constructs v) s = ok (construct v s)
  step declares s = ok (declare s)
  step (copies j) s = copy j s
  step (assigns i j) s = assign i j s
  step (destroys i) s = destroy i s
  step (sets i v) s = set_value i v s

  abbrev pub Names : ℕ → Store A → Type 0
  Names i s = (h : Handle) × (handle i s ≡ ok h)

  abbrev pub Points : ℕ → Store A → Type 0
  Points i s = (a : ℕ) × (handle i s ≡ ok (to a))

  -- The variables are there; one that is copied or written to is not NULL.
  abbrev pub IsUsable : Use A → Store A → Type 0
  IsUsable (constructs v) s = Unit
  IsUsable declares s = Unit
  IsUsable (copies j) s = Points j s
  IsUsable (assigns i j) s = Names i s × Names j s
  IsUsable (destroys i) s = Names i s
  IsUsable (sets i v) s = Points i s

  -- Each object has as many handles as its refcount says, and at least one; no handle is on an address
  -- without an object, or on one that `new` has not given yet.
  abbrev pub IsManaged : Store A → Type 0
  IsManaged s = IsCounted s.cells (count s.handles) × ((a : ℕ) → s.next ≤ a → count s.handles a ≡ 0)

  step_construct : (v : A) (s : Store A) → IsManaged s → IsManaged (construct v s)
  unfolding construct
  step_construct v s (all, fresh) = (
    λ b.
        along_count _ _ _ (ground (arith, count-append s.handles (to s.next ∷ []) b, fresh s.next))
          (put-Backs s.cells (count s.handles) s.next (some record { refcount = pos 1; object = v })
            1 b all (refl, omega arith)),
    λ a h. ground (arith, count-append s.handles (to s.next ∷ []) a, fresh a),
  )

  step_declare : (s : Store A) → IsManaged s → IsManaged (declare s)
  step_declare s (all, fresh) = (
    λ b. along_count _ _ _ (omega (arith, count-append s.handles (null ∷ []) b)) (all b),
    λ a h. omega (arith, count-append s.handles (null ∷ []) a, fresh a h),
  )

  step_copy :
      (j : ℕ) (s : Store A)
      → IsManaged s
      → Points j s
      → (s' : Store A) × (copy j s ≡ ok s') × IsManaged s'
  unfolding copy
  step_copy j s (all, fresh) (c, e) =
      let (there, live) = initialised_ok (get_elem? s.handles j) (to c) e in
      let under = λ (b : ℕ). hits-count s.handles j (to c) b there in
      let (m, kept, counted) = retain_live (to c) s.cells (count s.handles) all live under in
      let s' = record s { cells = m; handles = s.handles ++ (to c ∷ []) } in
      (
        s',
        rw (e, kept) refl,
        (
          λ b. along_count _ _ _ (omega (arith, count-append s.handles (to c ∷ []) b)) (counted b),
          λ a h. omega (arith, count-append s.handles (to c ∷ []) a, fresh a h, under a),
        ),
      )

  step_destroy :
      (i : ℕ) (s : Store A)
      → IsManaged s
      → Names i s
      → (s' : Store A) × (destroy i s ≡ ok s') × IsManaged s'
  unfolding destroy
  step_destroy i s (all, fresh) (h, e) =
      let (there, live) = initialised_ok (get_elem? s.handles i) h e in
      let under = λ (b : ℕ). hits-count s.handles i h b there in
      let (m, given, counted) = release_live h s.cells (count s.handles) all live under in
      let change = λ (b : ℕ). count-set_handle s.handles i ended h b there in
      (
        record s { cells = m; handles = set_handle i ended s.handles },
        rw (e, given) refl,
        (
          λ b. along_count _ _ _ (omega (arith, change b)) (counted b),
          λ a p. omega (arith, change a, fresh a p),
        ),
      )

  step_assign :
      (i j : ℕ) (s : Store A)
      → IsManaged s
      → Names i s
      → Names j s
      → (s' : Store A) × (assign i j s ≡ ok s') × IsManaged s'
  unfolding assign
  step_assign i j s (all, fresh) (h, e) (k, f) =
      let (there, live) = initialised_ok (get_elem? s.handles i) h e in
      let (other, lives) = initialised_ok (get_elem? s.handles j) k f in
      let under = λ (b : ℕ). hits-count s.handles i h b there in
      let behind = λ (b : ℕ). hits-count s.handles j k b other in
      let (m, kept, counted) = retain_live k s.cells (count s.handles) all lives behind in
      let (m', given, recounted) =
        release_live h m (λ b. count s.handles b + hits k b) counted live
          (λ b. omega (arith, under b)) in
      let change = λ (b : ℕ). count-set_handle s.handles i k h b there in
      (
        record s { cells = m'; handles = set_handle i k s.handles },
        rw (e, f, kept, given) refl,
        (
          λ b. along_count _ _ _ (omega (arith, change b)) (recounted b),
          λ a p. omega (arith, change a, fresh a p, behind a),
        ),
      )

  cell_there :
      (o : Option (Cell A)) (n : ℕ)
      → Backs o n
      → 0 < n
      → (c : Cell A) × (at o ≡ ok c) × ((v : A) → Backs (some record c { object = v }) n)
  cell_there none n b p = absurd (omega arith)
  cell_there (some c) n b p = (c, refl, λ _. b)

  step_set :
      (i : ℕ) (v : A) (s : Store A)
      → IsManaged s
      → Points i s
      → (s' : Store A) × (set_value i v s ≡ ok s') × IsManaged s'
  unfolding set_value
  step_set i v s (all, fresh) (a, e) =
      let (there, live) = initialised_ok (get_elem? s.handles i) (to a) e in
      let p : 0 < count s.handles a = ground (arith, hits-count s.handles i (to a) a there) in
      let (c, read, back) = cell_there (s.cells a) (count s.handles a) (all a) p in
      (
        record s { cells = write (to a) v c s.cells },
        rw (e, read) refl,
        (
          λ b. along_count _ _ _ (ground arith) (
              put-Backs s.cells (count s.handles) a (some record c { object = v }) _ b all
                (back v)),
          fresh,
        ),
      )

  -- Where the refcounts are right, each use of variables that are there succeeds, a copy or a write only
  -- where the variable is not NULL: it reaches no object that is deleted or was never made, and leaves
  -- refcounts that are right.
  pub step-IsManaged :
      (op : Use A) (s : Store A)
      → IsManaged s
      → IsUsable op s
      → (s' : Store A) × (step op s ≡ ok s') × IsManaged s'
  step-IsManaged (constructs v) s p u = (construct v s, refl, step_construct v s p)
  step-IsManaged declares s p u = (declare s, refl, step_declare s p)
  step-IsManaged (copies j) s p u = step_copy j s p u
  step-IsManaged (assigns i j) s p (u, w) = step_assign i j s p u w
  step-IsManaged (destroys i) s p u = step_destroy i s p u
  step-IsManaged (sets i v) s p u = step_set i v s p u

  uncounted : (o : Option (Cell A)) (n : ℕ) → Backs o n → n ≡ 0 → o ≡ none
  uncounted none n b e = refl
  uncounted (some c) n b e = absurd (omega (arith, b.1))

  -- Where the refcounts are right, an address that no variable has any more is given back.
  pub forgotten_lem :
      (s : Store A) (a : ℕ) → IsManaged s → All (λ h. h ≢ to a) s.handles → s.cells a ≡ none
  forgotten_lem s a (all, fresh) none_left =
      uncounted (s.cells a) (count s.handles a) (all a) (count_none s.handles a none_left)

  read_back :
      (a b : ℕ) (v : A) (c : Cell A) (m : Cells A)
      → (at (put a (some record c { object = v }) m b) >>= λ d. ok d.object)
        ≡ (if a == b then ok v else (at (m b) >>= λ d. ok d.object))
  read_back a b v c m = elim (Bool-cases (a == b)) [ inl e ↦ rw e refl | inr e ↦ rw e refl ]

  set_found :
      (i a : ℕ) (v : A) (c : Cell A) (s : Store A)
      → handle i s ≡ ok (to a)
      → at (s.cells a) ≡ ok c
      → set_value i v s ≡ ok (record s { cells = write (to a) v c s.cells })
  unfolding set_value
  set_found i a v c s e read = rw (e, read) refl

  get_found :
      (j b : ℕ) (s : Store A) (m : Cells A)
      → handle j s ≡ ok (to b)
      → get_value j (record s { cells = m }) ≡ (at (m b) >>= λ d. ok d.object)
  unfolding get_value
  get_found j b s m f = rw f refl

  -- A value set through one variable is read through each variable with the same address, and through no
  -- other.
  pub get_value-set_value :
      (i j a b : ℕ) (v : A) (s : Store A)
      → IsManaged s
      → handle i s ≡ ok (to a)
      → handle j s ≡ ok (to b)
      → (set_value i v s >>= get_value j) ≡ (if a == b then ok v else get_value j s)
  get_value-set_value i j a b v s (all, fresh) e f =
      let (there, live) = initialised_ok (get_elem? s.handles i) (to a) e in
      let p : 0 < count s.handles a = ground (arith, hits-count s.handles i (to a) a there) in
      let (c, read, back) = cell_there (s.cells a) (count s.handles a) (all a) p in
      ap (λ r. r >>= get_value j) (set_found i a v c s e read)
      ∙ get_found j b s (write (to a) v c s.cells) f
      ∙ read_back a b v c s.cells
      ∙ ap (λ r. if a == b then ok v else r) (sym (get_found j b s s.cells f))
