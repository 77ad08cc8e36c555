-- ===== src/Poll/Rounds.antt =====
-- The packets that the loop of src/meteopoll.cc requests and reads.
use meteo.Base.{
  arith, ℕ, suc, ◌+◌, ◌*◌, ◌≤◌, ◌<◌, ◌≡◌, ltb, ◌==◌, List, [], ◌∷◌, Result, ok, err, String,
  Bool-cases, inl, inr, length,
}
use mathlib.Core.Path.{subst}
use meteo.Base.Int.{ℤ}
use meteo.Base.Double.{Double}
use meteo.Vector.{Libm}
use meteo.Station.{Readers}
use meteo.Sensor
use meteo.Sensor.{Sensors}
use meteo.Poll.{
  Reading, Polled, Attempt, Sending, proceed, start_loop, saved, end_minute, update_station, handle,
  poll_packet, poll, get_packet, send_outlets, minute_key, minute_of,
}

module _ {S D : Type 0} ⦃d : Double D⦄ ⦃c : Libm D⦄ (today : ℕ → ℕ → ℤ) (azi : D)
    (readers : Readers D) (field_id : String → ℕ) (outlets : List (Sending S D)) where
  -- From `s` the loop came to `t` with `n` packets read.
  abbrev pub IsCounted : ℕ → Polled S D → Polled S D → Type 0
  IsCounted n s t =
      (t.packets + n + 10 * s.requests ≡ s.packets + 10 * t.requests) × (t.packets ≤ 10)

  -- An attempt counts where it does not fail.
  abbrev pub Counts : ℕ → Polled S D → Attempt (Polled S D) → Type 0
  Counts n s (ok _, t) = IsCounted n s t
  Counts n s (err e, t) = Unit

  Counts-saved :
      (r : Reading) (s t : Polled S D) (x : Attempt S)
      → IsCounted 1 s t
      → Counts 1 s (saved today azi readers field_id outlets r t x)
  Counts-saved r s t (ok _, w) h = h
  Counts-saved r s t (err e, w) h = tt

  Counts-end_minute :
      (r : Reading) (s t : Polled S D)
      → IsCounted 1 s t
      → Counts 1 s (end_minute today azi readers field_id outlets r t)
  unfolding end_minute
  Counts-end_minute r s t h = elim (Bool-cases (t.minute == minute_of r.now)) [
    | inl e ↦ rw e h
    | inr e ↦ rw e (
        Counts-saved r s t
          (send_outlets outlets (minute_key r.now) (Sensor.send_outlet field_id t.sensors) t.world)
          h)
  ]

  Counts-handle :
      (r : Reading) (p : Result (List ℕ)) (s t : Polled S D)
      → IsCounted 1 s (get_packet t)
      → Counts 1 s (handle today azi readers field_id outlets r p (get_packet t))
  unfolding update_station
  Counts-handle r (ok bytes) s t h =
      Counts-end_minute r s
        (update_station today azi readers field_id outlets bytes r.clock (get_packet t)) h
  Counts-handle r (err e) s t h = tt

  Counts-started :
      (r : Reading) (x : Result (Unit {0})) (s : Polled S D)
      → s.packets ≡ 0
      → Counts 1 s (
          proceed
            (start_loop x s)
            λ t. handle today azi readers field_id outlets r r.packet (get_packet t))
  Counts-started r (err e) s empty = tt
  Counts-started r (ok _) s empty =
      Counts-handle r r.packet s (record s { packets = 10; requests = suc s.requests })
        (omega (arith, empty), omega arith)

  Counts-poll_packet :
      (r : Reading) (s : Polled S D)
      → s.packets ≤ 10
      → Counts 1 s (poll_packet today azi readers field_id outlets r s)
  unfolding poll_packet
  Counts-poll_packet r s few = elim (Bool-cases (ltb 0 s.packets)) [
    | inl e ↦
        let more : 0 < s.packets = ground (arith, e) in
        rw e (Counts-handle r r.packet s s (omega (arith, more), omega (arith, few)))
    | inr e ↦
        let empty : s.packets ≡ 0 = ground (arith, e) in rw e (Counts-started r r.started s empty)
  ]

  Counts-later :
      (n : ℕ) (s t : Polled S D) (x : Attempt (Polled S D))
      → IsCounted 1 s t
      → Counts n t x
      → Counts (suc n) s x
  Counts-later n s t (err e, u) h more = tt
  Counts-later n s t (ok _, u) (sum, few) (sum', few') = (omega (arith, sum, sum'), few')

  Counts-proceed :
      (n : ℕ) (s : Polled S D) (x : Attempt (Polled S D)) (next : Polled S D → Attempt (Polled S D))
      → Counts 1 s x
      → ((t : Polled S D) → t.packets ≤ 10 → Counts n t (next t))
      → Counts (suc n) s (proceed x next)
  Counts-proceed n s (err e, t) next h later = tt
  Counts-proceed n s (ok _, t) next h later = Counts-later n s t (next t) h (later t h.1)

  poll-Counts :
      (rs : List Reading) (s : Polled S D)
      → s.packets ≤ 10
      → Counts (length rs) s (poll today azi readers field_id outlets rs s)
  unfolding poll
  poll-Counts [] s few = (omega arith, few)
  poll-Counts (r ∷ rs) s few =
      Counts-proceed (length rs) s (poll_packet today azi readers field_id outlets r s)
        (poll today azi readers field_id outlets rs) (Counts-poll_packet r s few) (poll-Counts rs)

  Counts-ok :
      (n : ℕ) (s t : Polled S D) (x : Attempt (Polled S D))
      → Counts n s x
      → x ≡ (ok tt, t)
      → IsCounted n s t
  Counts-ok n s t x h e = subst (Counts n s) e h

  -- From a state with at most ten packets to come, over any trace that the loop gets through: the packets that it
  -- read and those to come are those that were to come and ten for each call of startLoop, and at most ten are
  -- to come.
  pub poll-IsCounted :
      (rs : List Reading) (s t : Polled S D)
      → s.packets ≤ 10
      → poll today azi readers field_id outlets rs s ≡ (ok tt, t)
      → IsCounted (length rs) s t
  poll-IsCounted rs s t few e =
      Counts-ok (length rs) s t (poll today azi readers field_id outlets rs s)
        (poll-Counts rs s few) e
