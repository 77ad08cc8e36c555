-- ===== src/Recorder/Handle.antt =====
-- lib/Recorder.cc: the handles on a BasicRecorder, which are those of lib/Value.cc but for an empty other.
use meteo.Base.{ℕ, ◌≡◌, refl, ap, ◌∙◌, Result, ok, err, ◌>>=◌, undefined, no_value}
use meteo.Value.{Handle, null, to, Store, handle, copy, assign}
use meteo.Value.Laws.{IsManaged, Points, Names, step-IsManaged, copies, assigns}

-- `other.bv->` without a test, and behind one that throws
abbrev pub followed : Handle → Result Handle
followed (to a) = ok (to a)
followed h = err undefined

abbrev pub tested : Handle → Result Handle
tested (to a) = ok (to a)
tested null = err no_value
tested h = err undefined

module _ {A : Type 0} where
  -- Recorder(const Recorder&)
  unfoldable pub copy_recorder : ℕ → Store A → Result (Store A)
  unfolding copy
  copy_recorder j s = handle j s >>= followed >>= λ _. copy j s

  -- Recorder::operator=, which throws before it changes anything
  unfoldable pub assign_recorder : ℕ → ℕ → Store A → Result (Store A)
  unfolding assign
  assign_recorder i j s = handle j s >>= tested >>= λ _. assign i j s

  -- Where the refcounts are right: a copy of a recorder that is not empty, and the assignment of one to any
  -- recorder, succeed and leave the refcounts right; the assignment of an empty one throws.
  pub recorders-IsManaged :
      (i j : ℕ) (s : Store A)
      → IsManaged s
      → Names i s
      → (Points j s → (s' : Store A) × (copy_recorder j s ≡ ok s') × IsManaged s')
        × (Points j s → (s' : Store A) × (assign_recorder i j s ≡ ok s') × IsManaged s')
        × (handle j s ≡ ok null → assign_recorder i j s ≡ err no_value)
  unfolding copy_recorder assign_recorder
  recorders-IsManaged i j s p names = (
    λ (a, e).
        let (s', made, managed) = step-IsManaged (copies j) s p (a, e) in
        (s', ap (λ h. h >>= followed >>= λ _. copy j s) e ∙ made, managed),
    λ (a, e).
        let (s', made, managed) = step-IsManaged (assigns i j) s p (names, (to a, e)) in
        (s', ap (λ h. h >>= tested >>= λ _. assign i j s) e ∙ made, managed),
    λ e. rw e refl,
  )
