-- ===== src/Station.antt =====
-- lib/Station.cc: the readers of a station, added from the tables, calibrated and read by name.
-- `field_class` gives the value class of a field; the code finds it in the database (`FQField`,
-- `Field`), and throws where it is missing.
pub mod Laws
pub mod Models
pub mod Vantage
use meteo.Base.{
  ℕ, suc, Bool, true, false, List, [], ◌∷◌, Option, none, some, Result, ok, err, ◌>>=◌,
  if◌then◌else◌, String, is_ok, reader_not_found, unknown_class,
}
use meteo.Base.Text.{str_eq}
use meteo.Base.Int.{ℤ}
use meteo.Base.Double.{Double}
use meteo.Reader.Kinds.{Kind}
use meteo.Reader.Kinds
use meteo.Reader.Calibrator.{Calibrator, identity}
use meteo.Reader.Factory.{new_packet_reader}
use meteo.Reader.Tables.{Entry}

-- A PacketReader, with the members that the factory sets. The class and the unit are for the Value
-- that `v` makes.
pub record Managed (D : Type 0) : Type 0 where
  pub kind : Kind
  pub cal : Calibrator D
  pub classname : String
  pub unit : String

-- `readermap_t`
abbrev pub Readers : Type 0 → Type 0
Readers D = List (String × Managed D)

module _ {D : Type 0} where
  abbrev pub find_reader : Readers D → String → Option (Managed D)
  find_reader [] n = none
  find_reader ((m, r) ∷ readers) n = if str_eq n m then some r else find_reader readers n

  -- `readers.insert`, which leaves an entry that is there
  abbrev pub insert_reader : String → Managed D → Readers D → Readers D
  insert_reader n r [] = (n, r) ∷ []
  insert_reader n r ((m, s) ∷ readers) =
      let rest = insert_reader n r readers in if str_eq n m then (m, s) ∷ readers else (m, s) ∷ rest

  -- Station::hasReader
  unfoldable pub has_reader : String → Readers D → Bool
  has_reader n readers = elim (find_reader readers n) [ none ↦ false | some _ ↦ true ]

module _ {D : Type 0} ⦃d : Double D⦄ (field_class : String → Result String) where
  -- The reader that Station::addReader adds: the factory's, with no calibration yet.
  abbrev pub make_reader : Entry → Result (Managed D)
  make_reader e = field_class e.readername >>= λ classname.
      new_packet_reader e.classname e.param1 e.param2 >>= λ kind.
      ok record { kind = kind; cal = identity; classname = classname; unit = e.readerunit }

  abbrev pub add_made : String → Result (Managed D) → Readers D → Readers D
  add_made n (ok r) readers = insert_reader n r readers
  add_made n (err _) readers = readers

  -- Station::addAllReaders: a reader that cannot be made is left out; the result has the number of
  -- readers that could.
  abbrev pub add_all_readers : List Entry → Readers D × ℕ → Readers D × ℕ
  add_all_readers [] state = state
  add_all_readers (e ∷ entries) (readers, counter) =
      let made = make_reader e in
      add_all_readers entries
        (add_made e.readername made readers, if is_ok made then suc counter else counter)

module _ {D : Type 0} where
  abbrev pub found : Option (Managed D) → Result (Managed D)
  found none = err reader_not_found
  found (some r) = ok r

  -- The assignment to the reader in the map.
  abbrev pub set_cal : String → Calibrator D → Readers D → Readers D
  set_cal n c [] = []
  set_cal n c ((m, r) ∷ readers) =
      let rest = set_cal n c readers in
      if str_eq n m then (m, record r { cal = c }) ∷ readers else (m, r) ∷ rest

  -- Station::calibrateReader
  unfoldable pub calibrate_reader : String → Calibrator D → Readers D → Result (Readers D)
  calibrate_reader n c readers = found (find_reader readers n) >>= λ _. ok (set_cal n c readers)

module _ {D : Type 0} ⦃d : Double D⦄ (today : ℕ → ℕ → ℤ) where
  -- Station::read, with BasicPacketReader's `operator()`
  unfoldable pub read : String → List ℕ → Readers D → Result D
  read n packet readers =
      found (find_reader readers n) >>= λ r. Kinds.read today r.kind r.cal packet

-- Station::valid
unfoldable pub valid : {D : Type 0} → String → List ℕ → Readers D → Result Bool
valid n packet readers = found (find_reader readers n) >>= λ r. Kinds.valid r.kind packet
