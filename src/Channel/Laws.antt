-- ===== src/Channel/Laws.antt =====
-- Reading a string off the line (lib/Channel.cc).
use meteo.Base.{ℕ, zero, suc, ◌≡◌, refl, List, [], ◌∷◌, ◌++◌, map, Result, ok, err, length, arith}
use meteo.Channel.{Input, char, Channel, M, recv_char, recv_string, bind_at, ◌>>=◌, pure}

-- A line that holds the bytes `s`, and more behind them.
abbrev pub holding : List ℕ → List Input → Channel → Channel
holding s rest c = record c { input = map char s ++ rest }

-- As many characters as asked for are returned, and the rest stays on the line.
pub recv_string-holding :
    (s : List ℕ) (rest : List Input) (c : Channel)
    → recv_string (length s) (holding s rest c) ≡ (ok s, record c { input = rest })
unfolding recv_string
recv_string-holding [] rest c = refl
recv_string-holding (b ∷ s) rest c = rw (recv_string-holding s rest c)

-- Inversion of a successful bind.
pub bind_at-eq-ok :
    {A B : Type 0} (r : Result A × Channel) (f : A → M B) {b : B} {c' : Channel}
    → bind_at r f ≡ (ok b, c')
    → (a : A) × (c : Channel) × (r ≡ (ok a, c)) × (f a c ≡ (ok b, c'))
bind_at-eq-ok (ok a, c) f e = (a, c, refl, e)
bind_at-eq-ok (err x, c) f e = cc

-- A string that is returned has the length asked for.
pub length-recv_string :
    (len : ℕ) (c : Channel) {s : List ℕ} {c' : Channel}
    → recv_string len c ≡ (ok s, c')
    → length s ≡ len
unfolding recv_string
length-recv_string zero c e = ground arith
length-recv_string (suc len) c {s} {c'} e =
    let (b, c1, _, e1) =
      bind_at-eq-ok (recv_char c) (λ b. recv_string len >>= λ s. pure (b ∷ s)) e in
    let (s', c2, e2, e3) = bind_at-eq-ok (recv_string len c1) (λ s. pure (b ∷ s)) e1 in
    ground (arith, length-recv_string len c1 e2)
