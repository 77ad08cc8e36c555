-- ===== src/Lock/Laws.antt =====
-- The bounds that lib/Lock.cc keeps.
use meteo.Base.{
  ℕ, suc, ◌+◌, ◌≤◌, ◌≡◌, sym, ◌∙◌, ap, Bool, true, false, some, ok, err, inl, inr, Option-cases,
  arith, cannot_run, cannot_release,
}
use meteo.Lock.{
  Semaphores, AreCounted, queued, enter_queue, admitted, enter_region, released, leave, System,
  Step, Reach,
}

module _ {S : Type 0} (sem : Semaphores S) (laws : AreCounted sem) where
  open laws use {
    down_queue_value, down_queue_other, down_region_value, down_region_other, up_queue, up_region,
    undo_queue_value, undo_queue_other, undo_both_queue, undo_both_region,
  }

  -- The free places and those that are taken add up.
  abbrev pub Balanced : ℕ → ℕ → System sem → Type 0
  Balanced queue region a =
      (sem.queue a.set + a.waiting + a.running + a.stranded ≡ queue)
      × (sem.region a.set + a.running ≡ region)

  -- What each call of `semop` does to the two values.
  enter_queue-true :
      (s s' : S)
      → enter_queue sem s ≡ (true, s')
      → (sem.queue s ≡ suc (sem.queue s')) × (sem.region s' ≡ sem.region s)
  unfolding enter_queue
  enter_queue-true s s' e = elim (Option-cases (sem.down_queue s)) [
    | inl full ↦ absurd (cc (sym e ∙ ap (queued sem s) full))
    | inr (t, got) ↦
        let same : t ≡ s' = cc (sym e ∙ ap (queued sem s) got) in
        let got' : sem.down_queue s ≡ some s' = got ∙ ap some same in
        (down_queue_value s s' got', down_queue_other s s' got')
  ]

  enter_queue-false : (s s' : S) → enter_queue sem s ≡ (false, s') → s ≡ s'
  unfolding enter_queue
  enter_queue-false s s' e = elim (Option-cases (sem.down_queue s)) [
    | inl full ↦ cc (sym e ∙ ap (queued sem s) full)
    | inr (t, got) ↦ absurd (cc (sym e ∙ ap (queued sem s) got))
  ]

  enter_region_ok :
      (block : Bool) (s s' : S)
      → enter_region sem block s ≡ (ok true, s')
      → (sem.region s ≡ suc (sem.region s')) × (sem.queue s' ≡ sem.queue s)
  unfolding enter_region
  enter_region_ok block s s' e = elim (Option-cases (sem.down_region block s)) [
    | inl busy ↦ absurd (cc (sym e ∙ ap (admitted sem s) busy))
    | inr (t, got) ↦
        let same : t ≡ s' = cc (sym e ∙ ap (admitted sem s) got) in
        let got' : sem.down_region block s ≡ some s' = got ∙ ap some same in
        (down_region_value block s s' got', down_region_other block s s' got')
  ]

  enter_region_throws :
      (block : Bool) (s s' : S) → enter_region sem block s ≡ (err cannot_run, s') → s ≡ s'
  unfolding enter_region
  enter_region_throws block s s' e = elim (Option-cases (sem.down_region block s)) [
    | inl busy ↦ cc (sym e ∙ ap (admitted sem s) busy)
    | inr (t, got) ↦ absurd (cc (sym e ∙ ap (admitted sem s) got))
  ]

  leave_ok :
      (s s' : S)
      → leave sem s ≡ (ok tt, s')
      → (sem.queue s' ≡ suc (sem.queue s)) × (sem.region s' ≡ suc (sem.region s))
  unfolding leave
  leave_ok s s' e = elim (Option-cases (sem.up_both s)) [
    | inl no_room ↦ absurd (cc (sym e ∙ ap (released sem s) no_room))
    | inr (t, got) ↦
        let same : t ≡ s' = cc (sym e ∙ ap (released sem s) got) in
        let got' : sem.up_both s ≡ some s' = got ∙ ap some same in
        (up_queue s s' got', up_region s s' got')
  ]

  leave_throws : (s s' : S) → leave sem s ≡ (err cannot_release, s') → s ≡ s'
  unfolding leave
  leave_throws s s' e = elim (Option-cases (sem.up_both s)) [
    | inl no_room ↦ cc (sym e ∙ ap (released sem s) no_room)
    | inr (t, got) ↦ absurd (cc (sym e ∙ ap (released sem s) got))
  ]

  Step-Balanced :
      (queue region : ℕ) (a b : System sem)
      → Step sem a b
      → Balanced queue region a
      → Balanced queue region b
  Step-Balanced queue region _ _ (Step.queues a s e) (q, r) =
      let (dq, dr) = enter_queue-true a.set s e in (omega arith, omega arith)
  Step-Balanced queue region _ _ (Step.turned_away a s e) (q, r) =
      let same = enter_queue-false a.set s e in
      let same_queue = ap sem.queue same in
      let same_region = ap sem.region same in (omega arith, omega arith)
  Step-Balanced queue region _ _ (Step.runs block s s' w n x e) (q, r) =
      let (dr, dq) = enter_region_ok block s s' e in (omega arith, omega arith)
  Step-Balanced queue region _ _ (Step.fails block s s' w n x e) (q, r) =
      let same = enter_region_throws block s s' e in
      let same_queue = ap sem.queue same in
      let same_region = ap sem.region same in (omega arith, omega arith)
  Step-Balanced queue region _ _ (Step.leaves s s' w n x e) (q, r) =
      let (uq, ur) = leave_ok s s' e in (omega arith, omega arith)
  Step-Balanced queue region _ _ (Step.stays a s e) (q, r) =
      let same = leave_throws a.set s e in
      let same_queue = ap sem.queue same in
      let same_region = ap sem.region same in (omega arith, omega arith)
  Step-Balanced queue region _ _ (Step.ends_waiting s w n x) (q, r) =
      let uq = undo_queue_value s in let ur = undo_queue_other s in (omega arith, omega arith)
  Step-Balanced queue region _ _ (Step.ends_stranded s w n x) (q, r) =
      let uq = undo_queue_value s in let ur = undo_queue_other s in (omega arith, omega arith)
  Step-Balanced queue region _ _ (Step.ends_running s w n x) (q, r) =
      let uq = undo_both_queue s in let ur = undo_both_region s in (omega arith, omega arith)

  Reach-Balanced :
      (queue region : ℕ) (a b : System sem)
      → Reach sem a b
      → Balanced queue region a
      → Balanced queue region b
  Reach-Balanced queue region _ _ (Reach.here a) h = h
  Reach-Balanced queue region _ _ (Reach.then_step a b c before step) h =
      Step-Balanced queue region b c step (Reach-Balanced queue region a b before h)

  -- With semaphores that count as documented, and from a set with `queue` places in the queue and
  -- `region` places in the region and no process around, over any order of the calls of `semop` of the
  -- processes, which block or do not, and of their ends: at most `region` processes are in the critical region
  -- at any time, and at most `queue` wait for it, are in it or have failed to get in and still hold a place; the
  -- places that are free and those that are taken always add up to these numbers.
  pub running_bounded :
      (queue region : ℕ) (s : S) (b : System sem)
      → sem.queue s ≡ queue
      → sem.region s ≡ region
      → Reach sem record { set = s; waiting = 0; running = 0; stranded = 0 } b
      → (b.running ≤ region)
        × (b.waiting + b.running + b.stranded ≤ queue)
        × Balanced queue region b
  running_bounded queue region s b sq sr reach =
      let start : System sem = record { set = s; waiting = 0; running = 0; stranded = 0 } in
      let (q, r) = Reach-Balanced queue region start b reach (omega arith, omega arith) in
      (omega arith, omega arith, (q, r))
