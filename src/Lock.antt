-- ===== src/Lock.antt =====
-- lib/Lock.cc with System V semaphores: at most so many processes wait for, or are in, the critical
-- region, and at most so many are in it.
pub mod Laws
use meteo.Base.{
  ℕ, suc, ◌+◌, ◌≡◌, Bool, true, false, Option, none, some, Result, ok, err, cannot_run,
  cannot_release,
}

-- The set of two semaphores, number 0 for the queue and number 1 for the region. `down_queue` is `semop` with -1
-- and IPC_NOWAIT, and `down_region block` that with -1, and with IPC_NOWAIT unless `block` is set, at the moment
-- at which it returns; `up_both` is the `semop` of two additions. `none` is a failure, also by a signal. The last two
-- are what SEM_UNDO does when a process ends that holds a unit of the queue, or one of both.
pub record Semaphores (S : Type 0) : Type 0 where
  pub queue : S → ℕ
  pub region : S → ℕ
  pub down_queue : S → Option S
  pub down_region : (block : Bool) → S → Option S
  pub up_both : S → Option S
  pub undo_queue : S → S
  pub undo_both : S → S

-- The documented effect of the operations on the two values.
pub record AreCounted {S : Type 0} (sem : Semaphores S) : Type 0 where
  pub down_queue_value : (s s' : S) → sem.down_queue s ≡ some s' → sem.queue s ≡ suc (sem.queue s')
  pub down_queue_other : (s s' : S) → sem.down_queue s ≡ some s' → sem.region s' ≡ sem.region s
  pub down_region_value :
      (block : Bool) (s s' : S)
      → sem.down_region block s ≡ some s'
      → sem.region s ≡ suc (sem.region s')
  pub down_region_other :
      (block : Bool) (s s' : S) → sem.down_region block s ≡ some s' → sem.queue s' ≡ sem.queue s
  pub up_queue : (s s' : S) → sem.up_both s ≡ some s' → sem.queue s' ≡ suc (sem.queue s)
  pub up_region : (s s' : S) → sem.up_both s ≡ some s' → sem.region s' ≡ suc (sem.region s)
  pub undo_queue_value : (s : S) → sem.queue (sem.undo_queue s) ≡ suc (sem.queue s)
  pub undo_queue_other : (s : S) → sem.region (sem.undo_queue s) ≡ sem.region s
  pub undo_both_queue : (s : S) → sem.queue (sem.undo_both s) ≡ suc (sem.queue s)
  pub undo_both_region : (s : S) → sem.region (sem.undo_both s) ≡ suc (sem.region s)

module _ {S : Type 0} (sem : Semaphores S) where
  -- The first half of `enter`: whether the process got a place in the queue
  abbrev pub queued : S → Option S → Bool × S
  queued s none = (false, s)
  queued s (some s') = (true, s')

  unfoldable pub enter_queue : S → Bool × S
  enter_queue s = queued s (sem.down_queue s)

  -- The second half; a place in the queue is not given back where it fails.
  abbrev pub admitted : S → Option S → Result Bool × S
  admitted s none = (err cannot_run, s)
  admitted s (some s') = (ok true, s')

  unfoldable pub enter_region : (block : Bool) → S → Result Bool × S
  enter_region block s = admitted s (sem.down_region block s)

  abbrev pub go_on : Bool → Bool × S → Result Bool × S
  go_on block (false, s) = (ok false, s)
  go_on block (true, s) = enter_region block s

  -- Lock::enter, where no other process comes between its halves
  unfoldable pub enter : (block : Bool) → S → Result Bool × S
  unfolding enter_queue enter_region
  enter block s = go_on block (enter_queue s)

  abbrev pub released : S → Option S → Result (Unit {0}) × S
  released s none = (err cannot_release, s)
  released s (some s') = (ok tt, s')

  -- Lock::leave
  unfoldable pub leave : S → Result (Unit {0}) × S
  leave s = released s (sem.up_both s)

  -- The processes around the lock: `waiting` ones are between the two halves of `enter`, `running` ones in the
  -- region, and `stranded` ones have got the exception of `enter` and have not ended yet.
  pub record System : Type 0 where
    pub set : S
    pub waiting : ℕ
    pub running : ℕ
    pub stranded : ℕ

  -- A process makes one call of `semop`, or ends.
  pub data Step : System → System → Type 0 where
    queues :
        (a : System) (s : S)
        → enter_queue a.set ≡ (true, s)
        → Step a record a { set = s; waiting = suc a.waiting }
    turned_away :
        (a : System) (s : S) → enter_queue a.set ≡ (false, s) → Step a record a { set = s }
    runs :
        (block : Bool) (s s' : S) (w r x : ℕ)
        → enter_region block s ≡ (ok true, s')
        → Step
            record { set = s; waiting = suc w; running = r; stranded = x }
            record { set = s'; waiting = w; running = suc r; stranded = x }
    fails :
        (block : Bool) (s s' : S) (w r x : ℕ)
        → enter_region block s ≡ (err cannot_run, s')
        → Step
            record { set = s; waiting = suc w; running = r; stranded = x }
            record { set = s'; waiting = w; running = r; stranded = suc x }
    leaves :
        (s s' : S) (w r x : ℕ)
        → leave s ≡ (ok tt, s')
        → Step
            record { set = s; waiting = w; running = suc r; stranded = x }
            record { set = s'; waiting = w; running = r; stranded = x }
    stays :
        (a : System) (s : S) → leave a.set ≡ (err cannot_release, s) → Step a record a { set = s }
    ends_waiting :
        (s : S) (w r x : ℕ)
        → Step
            record { set = s; waiting = suc w; running = r; stranded = x }
            record { set = sem.undo_queue s; waiting = w; running = r; stranded = x }
    ends_stranded :
        (s : S) (w r x : ℕ)
        → Step
            record { set = s; waiting = w; running = r; stranded = suc x }
            record { set = sem.undo_queue s; waiting = w; running = r; stranded = x }
    ends_running :
        (s : S) (w r x : ℕ)
        → Step
            record { set = s; waiting = w; running = suc r; stranded = x }
            record { set = sem.undo_both s; waiting = w; running = r; stranded = x }

  pub data Reach : System → System → Type 0 where
    here : (a : System) → Reach a a
    then_step : (a b c : System) → Reach a b → Step b c → Reach a c
