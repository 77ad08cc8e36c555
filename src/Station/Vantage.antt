-- ===== src/Station/Vantage.antt =====
-- lib/VantagePro.cc: the constructor, which reads the calibration numbers off the EEPROM.
use meteo.Base.{ℕ, ◌+◌, List, Result, ◌>>=◌, String}
use meteo.Base.Int.{ℤ}
use meteo.Base.Double.{Double}
use meteo.Reader.Raw.{byte_at}
use meteo.Reader.Tables.{vantage_pro_readers}
use meteo.Channel.{M, bind_at}
use meteo.Davis.{eeprom, wakeup}
use meteo.Station.{Readers}
use meteo.Station.Models.{
  added, offline, numbered, calibrate_by, calibrate_some, tenth_of, whole_of, percent_of,
  rain_collector,
}

module _ {D : Type 0} ⦃d : Double D⦄ (today : ℕ → ℕ → ℤ) (digit : ℕ → String) where
  -- The calibrations of VantagePro::VantagePro from the EEPROM's bytes from 0x32 on
  unfoldable pub calibrate_vantage : List ℕ → Readers D → Result (Readers D)
  unfolding calibrate_by calibrate_some tenth_of whole_of percent_of
  calibrate_vantage packet readers = do
    r1 ← calibrate_by "console.temperature" (tenth_of today 51 packet) readers
    r2 ← calibrate_by "iss.temperature" (tenth_of today 53 packet) r1
    r3 ←
        calibrate_some (λ i. numbered digit "extra" i ".temperature")
          (λ i. whole_of today (53 + i) packet) 7 0 r2
    r4 ←
        calibrate_some (λ i. numbered digit "soil" i ".temperature")
          (λ i. tenth_of today (53 + 7 + i) packet) 4 0 r3
    r5 ←
        calibrate_some (λ i. numbered digit "leaf" i ".temperature")
          (λ i. tenth_of today (53 + 11 + i) packet) 4 0 r4
    r6 ← calibrate_by "console.humidity" (percent_of today 68 packet) r5
    r7 ← calibrate_by "iss.humidity" (percent_of today 69 packet) r6
    calibrate_some (λ i. numbered digit "extra" i ".humidity")
        (λ i. percent_of today (69 + 1 + i) packet) 7 0 r7

module _ {D : Type 0} ⦃d : Double D⦄ (field_class : String → Result String) (today : ℕ → ℕ → ℤ)
    (decimal hex2 : ℕ → List ℕ) (digit : ℕ → String) where
  -- VantagePro::VantagePro
  unfoldable pub vantage_pro : M (Readers D)
  unfolding calibrate_vantage rain_collector wakeup eeprom
  vantage_pro c0 = bind_at (wakeup 3 c0) λ _ c1. bind_at (eeprom decimal hex2 0x2b 1 c1) λ r c2.
      bind_at
        (offline (byte_at r 0 >>= λ b. rain_collector b (added field_class vantage_pro_readers)) c2)
        λ readers c3.
          bind_at (eeprom decimal hex2 0x32 29 c3)
            λ packet. offline (calibrate_vantage today digit packet readers)
