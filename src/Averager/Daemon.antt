-- ===== src/Averager/Daemon.antt =====
-- src/meteoavg.cc: the daemon that adds the averages as the time goes on, and the loop over a range of times.
-- Times are natural numbers, and sums with the offset of the station are integers.
pub mod Laws
use meteo.Base.{
  ℕ, zero, suc, ◌+◌, ◌-◌, ◌*◌, ◌%◌, ◌==◌, ltb, leb, Bool, true, false, List, [], ◌∷◌, ◌++◌, Result,
  ok, err, if◌then◌else◌, String, map, ◌>>=◌,
}
use meteo.Base.Int.{ℤ, pos, negsuc}
use meteo.Tdata.{slots}
use meteo.Time.Offset.{timekey_of}
use meteo.Base.Double.{Double}
use meteo.Vector.{Libm}
use meteo.Averager.Add.{Database, Outcome, and_then, with_value, add}

-- The point in time that a round of avg_daemon sleeps to
abbrev pub next_event : ℕ → ℕ
next_event now = now - now % 300 + 330

-- A call of Averager::add
pub record Call : Type 0 where
  pub timekey : ℕ
  pub interval : ℕ

-- The calls of a round for a timekey
abbrev pub calls : ℕ → List Call
calls timekey =
    (record { timekey = timekey - 300; interval = 300 })
    ∷ (record { timekey = timekey - 1800; interval = 1800 })
    ∷ (record { timekey = timekey - 7200; interval = 7200 })
    ∷ (record { timekey = timekey - 86400; interval = 86400 })
    ∷ []

-- The points in time of the rounds, where `delay` is what the rounds take until `time` is asked again
abbrev pub wake : (ℕ → ℕ) → ℕ → ℕ → ℕ
wake delay start zero = next_event start
wake delay start (suc n) = next_event (wake delay start n + delay n)

-- The timekey of a round
abbrev pub round_key : ℤ → (ℕ → ℕ) → ℕ → ℕ → ℕ
round_key offset delay start n = timekey_of offset (wake delay start n - wake delay start n % 300)

-- Those that Averager::add does not skip
abbrev pub is_valid : Call → Bool
is_valid c = (c.timekey % c.interval) == 0

module _ {D Db : Type 0} ⦃d : Double D⦄ ⦃m : Libm D⦄ (base : Database D Db) (offset : ℤ)
    (sensors : List String) where
  abbrev pub run_calls : List Call → Db → Outcome Db
  run_calls [] db = (ok 0, db)
  run_calls (c ∷ cs) db =
      and_then (add base offset false c.timekey c.interval false sensors db) (run_calls cs)

-- The first time of the loop over a range, and the times in it; the interval is one or more.
abbrev pub range_start : ℤ → ℕ → ℕ → ℕ
range_start offset interval fromt = fromt - timekey_of offset fromt % interval

abbrev pub range_keys : ℤ → ℕ → ℕ → ℕ → List ℕ
range_keys offset interval fromt tot =
    let t = range_start offset interval fromt in
    map (timekey_of offset) (slots (tot + 1 - t) t tot interval)

module _ {D Db : Type 0} ⦃d : Double D⦄ ⦃m : Libm D⦄ (base : Database D Db) (offset : ℤ)
    (sensors : List String) where
  -- Averager::have, on the number of rows that the database counts
  abbrev pub had : Bool → ℕ → ℕ → Db → Result Bool
  had true key interval db = ok false
  had false key interval db = base.have key interval db >>= λ rows. ok (ltb 0 rows)

  -- The body of the loop, with the options -a and -n
  abbrev pub add_key : (all fake : Bool) → ℕ → ℕ → Db → Outcome Db
  add_key all fake interval key db = with_value (had all key interval db) db λ have_avg db.
      let more = add base offset fake key interval all sensors db in
      if have_avg then (ok 0, db) else more

  abbrev pub add_keys : (all fake : Bool) → ℕ → List ℕ → Db → Outcome Db
  add_keys all fake interval [] db = (ok 0, db)
  add_keys all fake interval (key ∷ keys) db =
      and_then (add_key all fake interval key db) (add_keys all fake interval keys)

  -- meteoavg with two times
  unfoldable pub add_range : (all fake : Bool) → (interval fromt tot : ℕ) → Db → Outcome Db
  add_range all fake interval fromt tot db =
      add_keys all fake interval (range_keys offset interval fromt tot) db
