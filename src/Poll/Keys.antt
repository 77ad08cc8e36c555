-- ===== src/Poll/Keys.antt =====
-- The time keys that the loop of src/meteopoll.cc sends.
use meteo.Base.{
  arith, ℕ, ◌≤◌, ◌<◌, ◌≡◌, refl, sym, ap, ◌∙◌, ◌==◌, Bool, true, false, if◌then◌else◌, List, [],
  ◌∷◌, ◌++◌, map, ok, String, append_cons, append_nil,
}
use meteo.Base.Int.{ℤ}
use meteo.Base.Double.{Double}
use meteo.Vector.{Libm}
use meteo.Station.{Readers}
use meteo.Sensor.{Sensors}
use meteo.Sensor.Laws.{Event}
use meteo.Poll.{Sending, minute_of, minute_key, send_outlets, poll, begin}
use meteo.Poll.Laws.{Heard, heard, packet_of, resets, ends, send_all, poll-ends}

-- The clock does not go back.
abbrev pub IsOnwards : ℕ → List Heard → Type 0
IsOnwards t [] = Unit
IsOnwards t (h ∷ hs) = (t ≤ h.now) × IsOnwards h.now hs

-- Each number is above that before it, and the first above `k`.
abbrev pub IsRising : ℕ → List ℕ → Type 0
IsRising k [] = Unit
IsRising k (n ∷ ns) = (k < n) × IsRising n ns

rising_key :
    (t now : ℕ) → t ≤ now → (minute_of t == minute_of now) ≡ false → minute_key t < minute_key now
rising_key t now h e = ground (arith, h, e)

key_kept : (t now : ℕ) → t ≤ now → minute_key t ≤ minute_key now
key_kept t now h = omega arith

IsRising-below : (j k : ℕ) (ns : List ℕ) → j ≤ k → IsRising k ns → IsRising j ns
IsRising-below j k [] h r = tt
IsRising-below j k (n ∷ ns) h (first, r) = (omega arith, r)

abbrev keys : List (ℕ × List Event) → List ℕ
keys bs = map (λ b. b.0) bs

ended-IsRising :
    (b : Bool) (t now : ℕ) (seen : List Event) (bs : List (ℕ × List Event))
    → t ≤ now
    → (minute_of t == minute_of now) ≡ b
    → IsRising (minute_key now) (keys bs)
    → IsRising (minute_key t) (keys (if b then bs else (minute_key now, seen) ∷ bs))
ended-IsRising true t now seen bs h e rest =
    IsRising-below (minute_key t) (minute_key now) (keys bs) (key_kept t now h) rest
ended-IsRising false t now seen bs h e rest = (rising_key t now h e, rest)

ends-IsRising :
    (t : ℕ) (past : List Event) (hs : List Heard)
    → IsOnwards t hs
    → IsRising (minute_key t) (keys (ends (minute_of t) past hs))
ends-IsRising t past [] on = tt
ends-IsRising t past (h ∷ hs) (later, on) =
    let seen = past ++ (packet_of h ∷ []) in
    let rest = ends-IsRising h.now (seen ++ resets (minute_of t) h) hs on in
    ended-IsRising (minute_of t == minute_of h.now) t h.now seen
      (ends (minute_of h.now) (seen ++ resets (minute_of t) h) hs) later refl rest

-- An outlet that notes the time keys.
abbrev pub noted : {D : Type 0} → Sending (List ℕ) D
noted key rows log = (ok tt, log ++ (key ∷ []))

module _ {D : Type 0} ⦃d : Double D⦄ ⦃c : Libm D⦄ (today : ℕ → ℕ → ℤ) (azi : D)
    (readers : Readers D) (field_id : String → ℕ) where
  send_all-keys :
      (m : Sensors D) (bs : List (ℕ × List Event)) (log : List ℕ)
      → send_all today azi readers field_id (noted ∷ []) m bs log ≡ (ok tt, log ++ keys bs)
  unfolding send_outlets
  send_all-keys m [] log = ap (λ l. (ok tt, l)) (sym (append_nil log))
  send_all-keys m ((key, es) ∷ bs) log =
      send_all-keys m bs (log ++ (key ∷ [])) ∙ ap (λ l. (ok tt, l)) (append_cons log (keys bs) key)

  -- Where the channel answers and the clock does not go back: the time keys that the loop sends rise, from above
  -- that of the time at which it starts, so that no two batches of rows have the same key.
  pub poll-IsRising :
      (t : ℕ) (hs : List Heard) (m : Sensors D)
      → IsOnwards t hs
      → IsRising
          (minute_key t)
          (poll today azi readers field_id (noted ∷ []) (map heard hs) (begin t m [])).1.world
  poll-IsRising t hs m on =
      let sent =
        ap (λ x. x.1)
          (poll-ends today azi readers field_id (noted ∷ []) hs (begin t m [])
            ∙ send_all-keys m (ends (minute_of t) [] hs) []) in
      rw sent (ends-IsRising t [] hs on)
