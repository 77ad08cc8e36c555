-- ===== src/Station/Models/Laws.antt =====
-- Numbers that a station sends behind its ACK (lib/OldDavisStation.cc), as the constructors of the stations
-- read them.
use meteo.Base.{
  ℕ, ◌%◌, ◌≡◌, refl, true, false, List, [], ◌∷◌, ◌++◌, Option, none, some, Result, ok, err, String,
}
use meteo.Base.Int.{ℤ}
use meteo.Base.Double.{Double}
use meteo.Reader.Kinds.{Kind}
use meteo.Reader.Kinds
use meteo.Reader.Calibrator.{Calibrator, identity}
use meteo.Channel.{Channel, Input, char, send_string, recv_string}
use meteo.Davis.{read_bytes}
use meteo.Station.{Readers, find_reader}
use meteo.Station.Models.{number}

-- A line to a station that takes commands.
abbrev pub line : List ℕ → List Input → Channel
line sent input = record { input = input; sent = sent; stdin = false; writable = true }

-- The command of a readBytes.
abbrev pub command : ℕ → ℕ → List ℕ
command width offset = 87 ∷ 82 ∷ 68 ∷ width ∷ offset % 256 ∷ 13 ∷ []

module _ {D : Type 0} ⦃d : Double D⦄ (today : ℕ → ℕ → ℤ) where
  -- A number that the station sends in two bytes, or in one, behind its ACK.
  pub number_of_two :
      (k : Kind) (bank offset a b : ℕ) (x : D) (sent : List ℕ) (rest : List Input)
      → Kinds.read today k identity (6 ∷ a ∷ b ∷ []) ≡ ok x
      → number today k bank offset 2 (line sent (char 6 ∷ char a ∷ char b ∷ rest))
        ≡ (ok x, line (sent ++ command 68 offset) rest)
  unfolding number read_bytes send_string recv_string
  number_of_two k bank offset a b x sent rest e = rw e refl

  pub number_of_one :
      (k : Kind) (bank offset a : ℕ) (x : D) (sent : List ℕ) (rest : List Input)
      → Kinds.read today k identity (6 ∷ a ∷ []) ≡ ok x
      → number today k bank offset 1 (line sent (char 6 ∷ char a ∷ rest))
        ≡ (ok x, line (sent ++ command 36 offset) rest)
  unfolding number read_bytes send_string recv_string
  number_of_one k bank offset a x sent rest e = rw e refl

module _ {D : Type 0} where
  -- The calibrator of the reader of a name.
  abbrev pub cal_of : Readers D → String → Option (Calibrator D)
  cal_of readers n = elim (find_reader readers n) [ none ↦ none | some r ↦ some r.cal ]

  abbrev pub made : Result (Readers D) → Readers D
  made (ok readers) = readers
  made (err _) = []
