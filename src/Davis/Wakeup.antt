-- ===== src/Davis/Wakeup.antt =====
-- lib/VantagePro.cc, wakeup: when the loop gives up.
use meteo.Base.{
  ℕ, zero, suc, ◌-◌, ◌≤◌, ◌≡◌, refl, true, false, List, [], ◌∷◌, ◌++◌, ok, err, wakeup_failed, ltb,
  if◌then◌else◌, arith,
}
use meteo.Base.Int.{pos, negsuc}
use meteo.Channel.{Input, char, quiet, Channel, send_char, recv_string, drain}
use meteo.Davis.{call_once, call_loop, wakeup}

-- `n` calls that the station leaves unanswered: nothing comes in time for the reply, and nothing for
-- `drain`.
pub silences : ℕ → List Input → List Input
silences zero rest = rest
silences (suc n) rest = quiet ∷ quiet ∷ silences n rest

-- `n` more line feeds.
pub line_feeds : ℕ → List ℕ → List ℕ
line_feeds zero sent = sent
line_feeds (suc n) sent = line_feeds n (sent ++ (10 ∷ []))

abbrev line : List Input → List ℕ → Channel
line input sent = record { input = input; sent = sent; stdin = false; writable = true }

call_silent :
    (rest : List Input) (sent : List ℕ)
    → call_once (line (quiet ∷ quiet ∷ rest) sent) ≡ (ok false, line rest (sent ++ (10 ∷ [])))
unfolding call_once send_char recv_string drain
call_silent rest sent = refl

call_answered :
    (rest : List Input) (sent : List ℕ)
    → call_once (line (char 10 ∷ char 13 ∷ rest) sent) ≡ (ok true, line rest (sent ++ (10 ∷ [])))
unfolding call_once send_char recv_string drain
call_answered rest sent = refl

call_loop_late :
    (n k : ℕ) (rest : List Input) (sent : List ℕ)
    → k ≤ n
    → call_loop n (line (silences k (char 10 ∷ char 13 ∷ rest)) sent)
      ≡ (ok (pos (n - k)), line rest (line_feeds (suc k) sent))
unfolding call_loop silences line_feeds
call_loop_late zero zero rest sent h = rw (call_answered rest sent) refl
call_loop_late (suc n) zero rest sent h =
    let e : suc n - 0 ≡ suc n = omega arith in rw (call_answered rest sent, e) refl
call_loop_late zero (suc k) rest sent h = absurd (omega arith)
call_loop_late (suc n) (suc k) rest sent h =
    let e : suc n - suc k ≡ n - k = omega arith in
    rw (call_silent (silences k (char 10 ∷ char 13 ∷ rest)) sent, e)
      (call_loop_late n k rest (sent ++ (10 ∷ [])) (omega arith))

call_loop_never :
    (n : ℕ) (rest : List Input) (sent : List ℕ)
    → call_loop n (line (silences (suc n) rest) sent)
      ≡ (ok (negsuc 0), line rest (line_feeds (suc n) sent))
unfolding call_loop silences line_feeds
call_loop_never zero rest sent = rw (call_silent rest sent) refl
call_loop_never (suc n) rest sent =
    rw (call_silent (quiet ∷ quiet ∷ silences n rest) sent)
      (call_loop_never n rest (sent ++ (10 ∷ [])))

-- VantagePro::wakeup(n) on a line that can be written. If the station leaves k calls unanswered and then
-- answers, with k at most n, the call ends normally exactly if k is below n: an answer to the last call
-- is read, and the wake-up fails all the same. If none of the n + 1 calls is answered it fails. In each
-- case one line feed was sent for each call.
pub wakeup_lem :
    (n k : ℕ) (rest : List Input) (sent : List ℕ)
    → k ≤ n
    → (wakeup n (line (silences k (char 10 ∷ char 13 ∷ rest)) sent)
        ≡ (if ltb k n then ok tt else err wakeup_failed, line rest (line_feeds (suc k) sent)))
      × (wakeup n (line (silences (suc n) rest) sent)
          ≡ (err wakeup_failed, line rest (line_feeds (suc n) sent)))
unfolding wakeup
wakeup_lem n k rest sent h =
    (rw (call_loop_late n k rest sent h) (ground arith), rw (call_loop_never n rest sent) refl)
