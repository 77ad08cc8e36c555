-- ===== src/Tests/Runs.antt =====
-- Runs of single operations.
use meteo.Base.{ℕ, ◌≡◌, refl, List, [], ◌∷◌, ok, true, false}
use meteo.Base.Int.{ℤ, pos, negsuc, ◌+ℤ◌, ◌-ℤ◌}
use meteo.Base.Double.{int_double}
use meteo.Channel.{Channel, Input, char, send_string, recv_string, drain, send_char}
use meteo.Davis.{wait_ack, wakeup, start_loop_old, read_bytes, start_loop_vantage, eeprom}
use meteo.Time.Timeval.{of_seconds, get_timekey, get_value, minus}
use meteo.Recorder.Basic.{Basic}
use meteo.Recorder.Minmax.{Minmax, get_max, get_min}
use meteo.Recorder.Minmax
use meteo.Recorder.Rain.{Rain, total_of, rate_of, set_total}
use meteo.Tdata.{Tdata}
use meteo.Tdata.Series.{at, floor, ceil, sqr, accumulate, min, avg}

abbrev answers : List Input → Channel
answers input = record { input = input; sent = []; stdin = false; writable = true }

-- The LOOP command for one packet.
start_loop_old_run : start_loop_old 1 (answers (char 6 ∷ [])) ≡ (
  ok 1,
  record {
    input = [];
    sent = 76 ∷ 79 ∷ 79 ∷ 80 ∷ 255 ∷ 255 ∷ 13 ∷ [];
    stdin = false;
    writable = true;
  },
)
unfolding start_loop_old send_string wait_ack
start_loop_old_run = refl

read_bytes_run : read_bytes 1 0xd6 2 (answers (char 6 ∷ char 100 ∷ char 0 ∷ [])) ≡ (
  ok (6 ∷ 100 ∷ 0 ∷ []),
  record { input = []; sent = 87 ∷ 82 ∷ 68 ∷ 68 ∷ 214 ∷ 13 ∷ []; stdin = false; writable = true },
)
unfolding read_bytes send_string recv_string
read_bytes_run = refl

-- The digits of snprintf are not looked at.
abbrev two_digits : ℕ → List ℕ
two_digits _ = 48 ∷ 48 ∷ []

eeprom_run :
    (eeprom two_digits two_digits 0x2b 1 (answers (char 6 ∷ char 16 ∷ char 0 ∷ char 0 ∷ []))).0
    ≡ ok (16 ∷ 0 ∷ 0 ∷ [])
unfolding eeprom send_string recv_string
eeprom_run = refl

start_loop_vantage_run :
    (start_loop_vantage two_digits two_digits 5 (answers (char 10 ∷ char 13 ∷ char 6 ∷ []))).0
    ≡ ok 5
unfolding start_loop_vantage wakeup send_string recv_string wait_ack drain send_char
start_loop_vantage_run = refl

get_timekey_run : get_timekey (of_seconds (pos 130)) ≡ pos 120
unfolding get_timekey
get_timekey_run = refl

abbrev running : Basic ℤ
running = record {
  isvalid = true;
  start = of_seconds (pos 0);
  lastupdate = of_seconds (pos 10);
  value = pos 7;
}

abbrev extremes : Minmax ℤ
extremes = record { basic = running; max = pos 9; min = pos 2; storeminmax = true }

-- The maximum that is asked for is the average.
get_max_run : get_max extremes ≡ ok (pos 7)
unfolding get_max
get_max_run = refl

get_min_run : get_min extremes ≡ ok (pos 2)
unfolding get_min
get_min_run = refl

set_value_run :
    (Minmax.set_value (of_seconds (pos 5)) (of_seconds (pos 6)) (pos 3) extremes).min ≡ pos 3
unfolding Minmax.set_value
set_value_run = refl

abbrev rain : Rain ℤ
rain = record { basic = running; startvalue = pos 2 }

rate_of_run : rate_of (set_total (pos 20) rain) ≡ ok (pos 0)
unfolding rate_of set_total get_value ◌+ℤ◌ minus ◌-ℤ◌
rate_of_run = refl

total_of_run : total_of (set_total (pos 20) rain) ≡ ok (pos 20)
unfolding total_of set_total
total_of_run = refl

abbrev hour_of_data : Tdata ℤ
hour_of_data = record {
  interval = 10;
  start = 0;
  finish = 20;
  entries = (0, pos 3) ∷ (20, negsuc 0) ∷ [];
  constant = false;
  value = pos 0;
}

at_run : at 20 hour_of_data ≡ ok (negsuc 0)
unfolding at
at_run = refl

floor_run : (floor (pos 1) hour_of_data).entries ≡ (0, pos 3) ∷ (20, pos 1) ∷ []
unfolding floor
floor_run = refl

ceil_run : (ceil (pos 1) hour_of_data).entries ≡ (0, pos 1) ∷ (20, negsuc 0) ∷ []
unfolding ceil
ceil_run = refl

sqr_run : (sqr hour_of_data).entries ≡ (0, pos 9) ∷ (20, pos 1) ∷ []
unfolding sqr ◌-ℤ◌
sqr_run = refl

accumulate_run : (accumulate hour_of_data).entries ≡ (0, pos 3) ∷ (10, pos 3) ∷ (20, pos 2) ∷ []
unfolding accumulate ◌+ℤ◌
accumulate_run = refl

min_run : min hour_of_data ≡ negsuc 0
unfolding min
min_run = refl

avg_run : avg hour_of_data ≡ pos 1
unfolding avg ◌-ℤ◌ ◌+ℤ◌
avg_run = refl
