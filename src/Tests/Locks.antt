-- ===== src/Tests/Locks.antt =====
-- A lock of two places in the queue and one in the region, over a pair of counters.
use meteo.Base.{
  ℕ, zero, suc, ◌+◌, ◌≤◌, ◌≡◌, refl, ap, sym, Option, none, some, true, false, err, cannot_run,
}
use meteo.Lock.{Semaphores, AreCounted, enter_queue, enter_region, enter, System, Step, Reach}
use meteo.Lock.Laws.{Balanced, running_bounded}

down_first : ℕ × ℕ → Option (ℕ × ℕ)
down_first (zero, r) = none
down_first (suc q, r) = some (q, r)

down_second : ℕ × ℕ → Option (ℕ × ℕ)
down_second (q, zero) = none
down_second (q, suc r) = some (q, r)

abbrev counters : Semaphores (ℕ × ℕ)
counters = record {
  queue = λ s. s.0;
  region = λ s. s.1;
  down_queue = down_first;
  down_region = λ block. down_second;
  up_both = λ s. some (suc s.0, suc s.1);
  undo_queue = λ s. (suc s.0, s.1);
  undo_both = λ s. (suc s.0, suc s.1);
}

down_first_value : (s s' : ℕ × ℕ) → down_first s ≡ some s' → (s.0 ≡ suc s'.0) × (s'.1 ≡ s.1)
unfolding down_first
down_first_value (zero, r) s' e = absurd (cc e)
down_first_value (suc q, r) s' e =
    let same : (q, r) ≡ s' = cc e in
    (ap (λ (s : ℕ × ℕ). suc s.0) same, sym (ap (λ (s : ℕ × ℕ). s.1) same))

down_second_value : (s s' : ℕ × ℕ) → down_second s ≡ some s' → (s.1 ≡ suc s'.1) × (s'.0 ≡ s.0)
unfolding down_second
down_second_value (q, zero) s' e = absurd (cc e)
down_second_value (q, suc r) s' e =
    let same : (q, r) ≡ s' = cc e in
    (ap (λ (s : ℕ × ℕ). suc s.1) same, sym (ap (λ (s : ℕ × ℕ). s.0) same))

up_value : (s s' : ℕ × ℕ) → some (suc s.0, suc s.1) ≡ some s' → (s'.0 ≡ suc s.0) × (s'.1 ≡ suc s.1)
up_value s s' e =
    let same : (suc s.0, suc s.1) ≡ s' = cc e in
    (sym (ap (λ (t : ℕ × ℕ). t.0) same), sym (ap (λ (t : ℕ × ℕ). t.1) same))

counters-AreCounted : AreCounted counters
counters-AreCounted = record {
  down_queue_value = λ s s' e. (down_first_value s s' e).0;
  down_queue_other = λ s s' e. (down_first_value s s' e).1;
  down_region_value = λ block s s' e. (down_second_value s s' e).0;
  down_region_other = λ block s s' e. (down_second_value s s' e).1;
  up_queue = λ s s' e. (up_value s s' e).0;
  up_region = λ s s' e. (up_value s s' e).1;
  undo_queue_value = λ _. refl;
  undo_queue_other = λ _. refl;
  undo_both_queue = λ _. refl;
  undo_both_region = λ _. refl;
}

abbrev idle : System counters
idle = record { set = (2, 1); waiting = 0; running = 0; stranded = 0 }

abbrev one_waiting : System counters
one_waiting = record { set = (1, 1); waiting = 1; running = 0; stranded = 0 }

-- Two processes have a place in the queue, and neither is in the region.
abbrev two_waiting : System counters
two_waiting = record { set = (0, 1); waiting = 2; running = 0; stranded = 0 }

abbrev one_running : System counters
one_running = record { set = (0, 0); waiting = 1; running = 1; stranded = 0 }

first-Step : Step counters idle one_waiting
unfolding enter_queue down_first
first-Step = Step.queues idle (1, 1) refl

second-Step : Step counters one_waiting two_waiting
unfolding enter_queue down_first
second-Step = Step.queues one_waiting (0, 1) refl

third-Step : Step counters two_waiting one_running
unfolding enter_region down_second
third-Step = Step.runs true (0, 1) (0, 0) 1 0 0 refl

all-Reach : Reach counters idle one_running
all-Reach =
    Reach.then_step idle two_waiting one_running
      (Reach.then_step idle one_waiting two_waiting
        (Reach.then_step idle idle one_waiting (Reach.here idle) first-Step) second-Step)
      third-Step

-- Without blocking, the second process would get the exception and keep its place.
enter_run : enter counters false (1, 0) ≡ (err cannot_run, (0, 0))
unfolding enter down_first down_second
enter_run = refl

running_bounded_example :
    (1 ≤ 1) × (1 + 1 + 0 ≤ 2) × Balanced counters counters-AreCounted 2 1 one_running
running_bounded_example =
    running_bounded counters counters-AreCounted 2 1 (2, 1) one_running refl refl all-Reach
