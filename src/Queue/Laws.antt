-- ===== src/Queue/Laws.antt =====
-- What the message queue of lib/MsgQueuer.cc and lib/MsgDequeuer.cc delivers.
use meteo.Base.{
  ℕ, zero, suc, ◌+◌, ◌-◌, ◌≤◌, ◌≡◌, refl, ap, ◌∙◌, ◌⊎◌, inl, inr, false, List, [], ◌∷◌, ◌++◌, some,
  Result, ok, ltb, length, take, length-append, take-append, Option-cases, arith,
}
use meteo.Queue.{
  Text, MessageQueue, IsFifo, enqueue, shortened, received, dequeue, performed, rounds,
}

-- The message of a query.
abbrev pub IsSealed : Text → Text → Type 0
IsSealed m q = (behind : Text) × (m ≡ q ++ behind) × (length behind ≡ 8) × (length q + 8 ≤ 4096)

abbrev pub AreSealed : List Text → List Text → Type 0
AreSealed [] [] = Unit
AreSealed [] (_ ∷ _) = ⊥
AreSealed (_ ∷ _) [] = ⊥
AreSealed (m ∷ ms) (q ∷ qs) = IsSealed m q × AreSealed ms qs

AreSealed-append :
    (ms qs : List Text) (m q : Text)
    → AreSealed ms qs
    → IsSealed m q
    → AreSealed (ms ++ (m ∷ [])) (qs ++ (q ∷ []))
AreSealed-append [] [] m q _ one = (one, tt)
AreSealed-append [] (_ ∷ _) m q none_such one = absurd none_such
AreSealed-append (_ ∷ _) [] m q none_such one = absurd none_such
AreSealed-append (_ ∷ ms) (_ ∷ qs) m q (first, rest) one =
    (first, AreSealed-append ms qs m q rest one)

length-take : (n : ℕ) (xs : Text) → n ≤ length xs → length (take n xs) ≡ n
length-take zero xs h = refl
length-take (suc n) [] h = absurd (omega (arith, h))
length-take (suc n) (x ∷ xs) h = ap (λ k. suc k) (length-take n xs (omega (arith, h)))

shortened-append : (q behind : Text) → length behind ≡ 8 → shortened (q ++ behind) ≡ ok q
shortened-append q behind e =
    let whole : length (q ++ behind) ≡ length q + 8 = omega (arith, length-append q behind, e) in
    let enough : ltb (length (q ++ behind)) 8 ≡ false = ground (arith, whole) in
    let front : length (q ++ behind) - 8 ≡ length q = omega (arith, whole) in
    rw (enough, front, take-append q behind) refl

module _ (O : MessageQueue) (f : IsFifo O) where
  -- The queries that wait in the queue.
  abbrev pub IsWaiting : O.State → List Text → Type 0
  IsWaiting s qs = AreSealed (f.contents s) qs

  pub enqueue-some :
      (behind q : Text) (s s' : O.State) (qs : List Text)
      → IsWaiting s qs
      → 8 ≤ length behind
      → length q ≤ 4088
      → O.msgsnd (q ++ take 8 behind) s ≡ some s'
      → (enqueue O behind q s ≡ ok s') × IsWaiting s' (qs ++ (q ∷ []))
  unfolding enqueue
  enqueue-some behind q s s' qs waiting enough fits sent =
      let short : ltb 4096 (length q + 8) ≡ false = ground (arith, fits) in
      (
        rw (short, sent) refl,
        rw (f.contents-msgsnd (q ++ take 8 behind) s s' sent) (
            AreSealed-append (f.contents s) qs (q ++ take 8 behind) q waiting
              (take 8 behind, refl, length-take 8 behind enough, omega (arith, fits))),
      )

  -- A query of at most 4088 bytes is sent without a fault: either it waits behind the others, or the queue has
  -- no room for it and stays as it was. What lies in the buffer behind it does not matter.
  pub enqueue-IsWaiting :
      (behind q : Text) (s : O.State) (qs : List Text)
      → IsWaiting s qs
      → 8 ≤ length behind
      → length q ≤ 4088
      → (s' : O.State) × (enqueue O behind q s ≡ ok s') × (IsWaiting s' (qs ++ (q ∷ [])) ⊎ (s' ≡ s))
  unfolding enqueue
  enqueue-IsWaiting behind q s qs waiting enough fits =
      let short : ltb 4096 (length q + 8) ≡ false = ground (arith, fits) in
      elim (Option-cases (O.msgsnd (q ++ take 8 behind) s)) [
        | inl full ↦ (s, rw (short, full) refl, inr refl)
        | inr (s', sent) ↦
            let (done, more) = enqueue-some behind q s s' qs waiting enough fits sent in
            (s', done, inl more)
      ]

  first_waiting :
      (ms : List Text) (q : Text) (qs : List Text)
      → AreSealed ms (q ∷ qs)
      → (m : Text) × (rest : List Text) × (ms ≡ m ∷ rest) × IsSealed m q × AreSealed rest qs
  first_waiting [] q qs none_such = absurd none_such
  first_waiting (m ∷ rest) q qs (one, others) = (m, rest, refl, one, others)

  dequeue-IsWaiting :
      (s : O.State) (q : Text) (qs : List Text)
      → IsWaiting s (q ∷ qs)
      → (s' : O.State) × (dequeue O s ≡ (ok q, s')) × IsWaiting s' qs
  unfolding dequeue
  dequeue-IsWaiting s q qs waiting =
      let (m, rest, here, (behind, message, size, fits), others) =
        first_waiting (f.contents s) q qs waiting in
      let small : length m ≤ 4096 =
        omega (arith, fits, size, length-append q behind, ap length message) in
      let (s', taken, left) = f.msgrcv-contents 4096 m rest s here small in
      (
        s',
        ap (received O s) taken
            ∙ ap (λ x. (shortened x, s')) message
            ∙ ap (λ r. (r, s')) (shortened-append q behind size),
        rw left others,
      )

  nothing_left : (ms : List Text) → AreSealed ms [] → ms ≡ []
  nothing_left [] _ = refl
  nothing_left (_ ∷ _) none_such = absurd none_such

  module _ {Db : Type 0} (perform : Text → Db → Result ℕ × Db) where
    -- The database after queries, performed one after the other, whether they throw or not.
    abbrev pub after : List Text → Db → Db
    after [] db = db
    after (q ∷ qs) db = after qs (perform q db).1

    -- The loop of meteodequeue hands every query that waits to the database, in the order they were sent in, in
    -- as many rounds as there are queries, also where some of them throw; then no message is left.
    pub rounds-after :
        (qs : List Text) (s : O.State) (db : Db)
        → IsWaiting s qs
        → (s' : O.State) × (rounds O perform (length qs) s db ≡ (s', after qs db))
          × (f.contents s' ≡ [])
    unfolding rounds
    rounds-after [] s db waiting = (s, refl, nothing_left (f.contents s) waiting)
    rounds-after (q ∷ qs) s db waiting =
        let (s', taken, others) = dequeue-IsWaiting s q qs waiting in
        let (s'', gone, empty) = rounds-after qs s' (perform q db).1 others in
        (
          s'',
          ap
                (λ r.
                  rounds O perform (length qs) (performed O perform r db).0
                    (performed O perform r db).1)
                taken
              ∙ gone,
          empty,
        )
