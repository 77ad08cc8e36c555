-- ===== src/Reader/Tables/Bounds.antt =====
-- The tables of lib/ReaderInfo.cc against the reader classes and the packet sizes.
use meteo.Base.{
  ℕ, ◌+◌, ◌≤◌, ◌≡◌, refl, Bool, true, false, ◌&&◌, List, [], ◌∷◌, some, Result, ok, err, arith, leb,
  leb→le, length, All,
}
use meteo.Base.Int.{ℤ, pos}
use meteo.Base.Double.{int_double}
use meteo.Reader.Kinds.{Kind, valid}
use meteo.Reader.Kinds.Validity.{extent, IsShifted, value-valid}
use meteo.Reader.Factory.{new_packet_reader}
use meteo.Reader.Tables.{
  Entry, StationClass, wmii, groweather, energy, health, vantage_pro, wmii_readers,
  groweather_readers, energy_readers, health_readers, vantage_pro_readers, get_readers, reader_type,
  packet_size,
}

-- IsShifted as a test
shifted : Kind → Bool
shifted (Kind.nibble o s n) = leb 1 n && leb n 8
shifted _ = true

-- The factory makes the reader, the shifts of the reader have a meaning, and it stays off the check sum, the last two bytes.
fits_kind : ℕ → Result Kind → Bool
fits_kind size (ok k) = leb (extent k + 2) size && shifted k
fits_kind size (err _) = false

fits : ℕ → List Entry → Bool
fits size [] = true
fits size (e ∷ table) =
    fits_kind size (new_packet_reader e.classname e.param1 e.param2) && fits size table

abbrev pub Defined : List ℕ → Entry → Type 0
Defined packet e =
    (k : Kind) × (new_packet_reader e.classname e.param1 e.param2 ≡ ok k)
    × (extent k + 2 ≤ length packet)
    × ((b : Bool) × (valid k packet ≡ ok b))

and_true : (a b : Bool) → (a && b) ≡ true → (a ≡ true) × (b ≡ true)
and_true a b h = ground arith

shifted_sound : (k : Kind) → shifted k ≡ true → IsShifted k
unfolding shifted
shifted_sound (Kind.nibble o s n) h =
    let (one, few) = and_true (leb 1 n) (leb n 8) h in (leb→le _ _ one, leb→le _ _ few)
shifted_sound (Kind.byte _ _) h = tt
shifted_sound (Kind.short _ _ _) h = tt
shifted_sound (Kind.temperature _) h = tt
shifted_sound (Kind.extra_temperature _) h = tt
shifted_sound (Kind.old_temperature _) h = tt
shifted_sound (Kind.barometer _) h = tt
shifted_sound (Kind.rain _) h = tt
shifted_sound (Kind.rain_rate _) h = tt
shifted_sound (Kind.uv _) h = tt
shifted_sound (Kind.voltage _) h = tt
shifted_sound (Kind.time _) h = tt
shifted_sound (Kind.old_wind _) h = tt
shifted_sound Kind.wmii_wind h = tt
shifted_sound Kind.vantage_pro_wind h = tt

fits_kind_sound :
    (size : ℕ) (m : Result Kind)
    → fits_kind size m ≡ true
    → (k : Kind) × (m ≡ ok k) × (extent k + 2 ≤ size) × IsShifted k
unfolding fits_kind
fits_kind_sound size (ok k) h =
    let (inside, few) = and_true (leb (extent k + 2) size) (shifted k) h in
    (k, refl, leb→le _ _ inside, shifted_sound k few)
fits_kind_sound size (err _) h = cc

valid_defined :
    (k : Kind) (packet : List ℕ)
    → IsShifted k
    → extent k + 2 ≤ length packet
    → (b : Bool) × (valid k packet ≡ ok b)
valid_defined k packet few h =
    let (b, e, _) = value-valid {D = ℤ} (λ _ _. pos 0) k packet few (omega arith) in (b, e)

fits_sound :
    (table : List Entry) (packet : List ℕ)
    → fits (length packet) table ≡ true
    → All (Defined packet) table
unfolding fits
fits_sound [] packet h = tt
fits_sound (e ∷ table) packet h =
    let (first, rest) =
      and_true (fits_kind (length packet) (new_packet_reader e.classname e.param1 e.param2)) _ h in
    let (k, made, le, few) = fits_kind_sound _ _ first in
    ((k, made, le, valid_defined k packet few le), fits_sound table packet rest)

table_of : StationClass → List Entry
table_of wmii = wmii_readers
table_of groweather = groweather_readers
table_of energy = energy_readers
table_of health = health_readers
table_of vantage_pro = vantage_pro_readers

table_fits : (c : StationClass) → fits (packet_size c) (table_of c) ≡ true
unfolding table_of fits fits_kind extent shifted
table_fits wmii = refl
table_fits groweather = refl
table_fits energy = refl
table_fits health = refl
table_fits vantage_pro = refl

table_of-get_readers : (c : StationClass) → get_readers (reader_type c) ≡ some (table_of c)
unfolding table_of
table_of-get_readers wmii = refl
table_of-get_readers groweather = refl
table_of-get_readers energy = refl
table_of-get_readers health = refl
table_of-get_readers vantage_pro = refl

-- For every station class there is a table, and on every packet of the size that the class reads the
-- factory makes the reader of each entry, the reader lies before the check sum, and its validity test
-- is defined.
pub tables-Defined :
    (c : StationClass) (packet : List ℕ)
    → length packet ≡ packet_size c
    → (table : List Entry) × (get_readers (reader_type c) ≡ some table) × All (Defined packet) table
tables-Defined c packet h =
    (table_of c, table_of-get_readers c, fits_sound (table_of c) packet (rw h (table_fits c)))
