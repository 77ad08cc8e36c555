-- ===== src/Channel.antt =====
-- lib/Channel.cc: the connection to a station, as a state that the station's answers are part of.
pub mod Laws
use meteo.Base.{
  ℕ, zero, suc, Bool, true, false, List, [], ◌∷◌, ◌++◌, Reason, Result, ok, err, timeout,
  cannot_send, cannot_receive, if◌then◌else◌,
}

-- What the next `select` and `read` find: a byte, nothing in time, a descriptor that is ready but gives
-- nothing, or an error of `select`.
pub data Input : Type 0 where
  char : ℕ → Input
  quiet : Input
  closed : Input
  failed : Input

-- After the events of `input` the line stays quiet. `stdin` is the test `f == fileno(stdin)`, and
-- `writable` whether `write` takes what it is given.
pub record Channel : Type 0 where
  pub input : List Input
  pub sent : List ℕ
  pub stdin : Bool
  pub writable : Bool

-- A member function: it may throw, and what it has read stays read.
abbrev pub M : Type 0 → Type 0
M A = Channel → Result A × Channel

abbrev pub pure : {A : Type 0} → A → M A
pure a c = (ok a, c)

abbrev pub throw : {A : Type 0} → Reason → M A
throw e c = (err e, c)

abbrev pub bind_at : {A B : Type 0} → Result A × Channel → (A → M B) → Result B × Channel
bind_at (ok a, c) f = f a c
bind_at (err e, c) f = (err e, c)

infixl 5 ◌>>=◌
abbrev pub ◌>>=◌ : {Got : Type 0} {Made : Type 0} → M Got → (Got → M Made) → M Made
◌>>=◌ call next c = bind_at (call c) next

infixl 5 ◌>>◌
abbrev pub ◌>>◌ : {Made : Type 0} → M (Unit {0}) → M Made → M Made
◌>>◌ call next c = bind_at (call c) (λ _. next)

-- Channel::sendString; Channel::sendChar is the same with one character.
unfoldable pub send_string : List ℕ → M (Unit {0})
send_string s c =
    if c.stdin
    then (ok tt, c)
    else if c.writable
    then (ok tt, record c { sent = c.sent ++ s })
    else (err cannot_send, c)

unfoldable pub send_char : ℕ → M (Unit {0})
unfolding send_string
send_char b = send_string (b ∷ [])

-- Channel::recvChar
take_input : List Input → Channel → Result ℕ × Channel
take_input [] c = (err timeout, c)
take_input (char b ∷ rest) c = (ok b, record c { input = rest })
take_input (quiet ∷ rest) c = (err timeout, record c { input = rest })
take_input (closed ∷ rest) c = (err cannot_receive, record c { input = rest })
take_input (failed ∷ rest) c = (err cannot_receive, record c { input = rest })

unfoldable pub recv_char : M ℕ
unfolding take_input
recv_char c = take_input c.input c

-- Channel::recvString
unfoldable pub recv_string : ℕ → M (List ℕ)
unfolding recv_char
recv_string zero = pure []
recv_string (suc len) = do b ← recv_char; s ← recv_string len; pure (b ∷ s)

-- Channel::drain: read on until the line is quiet for the delay, or gives nothing any more. An error of
-- `select` is ignored.
after_quiet : List Input → List Input
after_quiet [] = []
after_quiet (char b ∷ rest) = after_quiet rest
after_quiet (quiet ∷ rest) = rest
after_quiet (closed ∷ rest) = rest
after_quiet (failed ∷ rest) = after_quiet rest

unfoldable pub drain : M (Unit {0})
unfolding after_quiet
drain c = if c.stdin then (ok tt, c) else (ok tt, record c { input = after_quiet c.input })

-- `try { m } catch (MeteoException&) { a }`
abbrev pub catch_at : {A : Type 0} → Result A × Channel → A → Result A × Channel
catch_at (ok a, c) b = (ok a, c)
catch_at (err e, c) b = (ok b, c)

abbrev pub catch : {A : Type 0} → M A → A → M A
catch m b c = catch_at (m c) b
