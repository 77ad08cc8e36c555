-- ===== src/Queue.antt =====
-- lib/MsgQueuer.cc, lib/MsgDequeuer.cc and the main loop of src/meteodequeue.cc: queries on their way to the
-- database through a message queue of the system. A text is the list of its bytes, and the queue, with msgsnd
-- and msgrcv, is a parameter. `long` has eight bytes.
pub mod Laws
use meteo.Base.{
  ℕ, zero, suc, ◌+◌, ◌-◌, ◌≤◌, ◌≡◌, Bool, List, [], ◌∷◌, ◌++◌, Option, none, some, Result, ok, err,
  ◌>>=◌, if◌then◌else◌, ltb, length, take, undefined, not_received,
}

abbrev pub Text : Type 0
Text = List ℕ

-- msgsnd without waiting, which fails where the queue has no room, and msgrcv with the size of the buffer. A
-- message is the text behind `mtype`. msgrcv on an empty queue waits, so that it has no result.
pub record MessageQueue : Type 1 where
  pub State : Type 0
  pub msgsnd : Text → State → Option State
  pub msgrcv : ℕ → State → Option (Text × State)

-- What the system promises: messages come in the order they were sent in, and each one whole
-- where the buffer has room for it.
pub record IsFifo (O : MessageQueue) : Type 0 where
  pub contents : O.State → List Text
  pub contents-msgsnd :
      (m : Text) (s s' : O.State) → O.msgsnd m s ≡ some s' → contents s' ≡ contents s ++ (m ∷ [])
  pub msgrcv-contents :
      (n : ℕ) (m : Text) (ms : List Text) (s : O.State)
      → contents s ≡ m ∷ ms
      → length m ≤ n
      → (s' : O.State) × (O.msgrcv n s ≡ some (m, s')) × (contents s' ≡ ms)

-- QUERYMSG_SIZE and sizeof(long)
abbrev pub querymsg_size : ℕ
querymsg_size = 4096

abbrev pub mtype_size : ℕ
mtype_size = 8

-- std::string(qm->mtext, r - sizeof(qm->mtype)), where the difference is not below 0
abbrev pub shortened : Text → Result Text
shortened m =
    if ltb (length m) mtype_size then err undefined else ok (take (length m - mtype_size) m)

module _ (O : MessageQueue) where
  abbrev pub with_room : O.State → Option O.State → O.State
  with_room s none = s
  with_room s (some s') = s'

  -- MsgQueuer::operator(): msgsnd is told the size of `mtype` as well, so that the message ends in bytes of the
  -- buffer that nothing was written to, `behind`. A longer query is written or read past the buffer. That
  -- msgsnd fails is only logged.
  unfoldable pub enqueue : Text → Text → O.State → Result O.State
  enqueue behind query s =
      if ltb querymsg_size (length query + mtype_size)
      then err undefined
      else ok (with_room s (O.msgsnd (query ++ take mtype_size behind) s))

  abbrev pub received : O.State → Option (Text × O.State) → Result Text × O.State
  received s none = (err not_received, s)
  received s (some (m, s')) = (shortened m, s')

  -- MsgDequeuer::operator()
  unfoldable pub dequeue : O.State → Result Text × O.State
  dequeue s = received s (O.msgrcv querymsg_size s)

  module _ {Db : Type 0} (perform : Text → Db → Result ℕ × Db) where
    abbrev pub performed : Result Text × O.State → Db → O.State × Db
    performed (err e, s) db = (s, db)
    performed (ok query, s) db = (s, (perform query db).1)

    -- Rounds of the loop of meteodequeue, which goes on after every exception
    unfoldable pub rounds : ℕ → O.State → Db → O.State × Db
    unfolding dequeue
    rounds zero s db = (s, db)
    rounds (suc n) s db = let (s', db') = performed (dequeue s) db in rounds n s' db'
