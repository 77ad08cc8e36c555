-- ===== src/Reader/Factory.antt =====
-- lib/PacketReaderFactory.cc: a reader from its specification.
use meteo.Base.{
  ℕ, true, false, List, [], ◌∷◌, Option, none, some, Result, ok, err, unknown_reader, String,
  if◌then◌else◌,
}
use meteo.Base.Text.{str_eq}
use meteo.Reader.Kinds.{Kind}

-- The tests of the factory, in its order.
abbrev pub specs : ℕ → ℕ → List (String × Kind)
specs offset length =
    ("SignedBytePacketReader", Kind.byte offset true)
    ∷ ("UnsignedBytePacketReader", Kind.byte offset false)
    ∷ ("SignedLittleEndianShortPacketReader", Kind.short offset true true)
    ∷ ("UnsignedLittleEndianShortPacketReader", Kind.short offset false true)
    ∷ ("SignedBigEndianShortPacketReader", Kind.short offset true false)
    ∷ ("UnsignedBigEndianShortPacketReader", Kind.short offset false false)
    ∷ ("SignedNibblePacketReader", Kind.nibble offset true length)
    ∷ ("UnsignedNibblePacketReader", Kind.nibble offset false length)
    ∷ ("TemperatureReader", Kind.temperature offset)
    ∷ ("ExtraTemperatureReader", Kind.extra_temperature offset)
    ∷ ("OldTemperatureReader", Kind.old_temperature offset)
    ∷ ("BarometerReader", Kind.barometer offset)
    ∷ ("RainReader", Kind.rain offset)
    ∷ ("RainRateReader", Kind.rain_rate offset)
    ∷ ("UVReader", Kind.uv offset)
    ∷ ("VoltageReader", Kind.voltage offset)
    ∷ ("TimeReader", Kind.time offset)
    ∷ ("OldWindReader", Kind.old_wind offset)
    ∷ ("WMIIWindReader", Kind.wmii_wind)
    ∷ ("VantageProWindReader", Kind.vantage_pro_wind)
    ∷ []

-- Each test that holds assigns `bpr` anew.
abbrev pub assign : String → List (String × Kind) → Option Kind → Option Kind
assign spec [] bpr = bpr
assign spec ((name, k) ∷ rest) bpr = assign spec rest (if str_eq spec name then some k else bpr)

abbrev pub of_option : Option Kind → Result Kind
of_option none = err unknown_reader
of_option (some k) = ok k

-- PacketReaderFactory::newPacketReader. The class name and the unit are kept with the reader.
abbrev pub new_packet_reader : String → ℕ → ℕ → Result Kind
new_packet_reader spec offset length = of_option (assign spec (specs offset length) none)
