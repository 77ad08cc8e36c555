-- ===== src/Tests/Protocol.antt =====
-- Packets and lines of the station's protocol.
use meteo.Base.{
  ℕ, ◌/◌, ◌%◌, ◌≡◌, ◌↔◌, refl, true, false, ◌||◌, List, [], ◌∷◌, ◌++◌, map, ok, err, is_ok, length,
  arith, wrong_crc, wakeup_failed,
}
use meteo.Base.Int.{pos}
use meteo.Base.Double.{int_double}
use meteo.Crc.{crc_start, crc_bytes, crc_check, crc_addbyte}
use meteo.Crc.Detect.{burst_detected, check_iff, bytes-append_sum}
use meteo.Crc.Polynomial.{divide_byte, addbyte-divide_byte}
use meteo.Channel.{Channel, char}
use meteo.Channel.Laws.{holding}
use meteo.Davis.{read_packet, read_packet_vantage, wait_ack, wakeup, ack, expect}
use meteo.Davis.Packets.{sealed, read_packet-sealed, read_packet_damaged, read_packet_vantage_lem}
use meteo.Davis.Wakeup.{silences, line_feeds, wakeup_lem}
use meteo.Davis.Ack.{contains, scattered, wait_ack-scattered}

-- The start of a LOOP packet of an old station.
abbrev message : List ℕ
message = 3 ∷ 2 ∷ 138 ∷ 1 ∷ []

abbrev quiet_line : Channel
quiet_line = record { input = []; sent = []; stdin = false; writable = true }

-- A byte and what the line made of it.
abbrev sent_byte : ℕ
sent_byte = 138

abbrev damaged_byte : ℕ
damaged_byte = 139

abbrev next_byte : ℕ
next_byte = 1

abbrev vantage_header : List ℕ
vantage_header = 76 ∷ 79 ∷ 79 ∷ 2 ∷ []

differ : ¬ ((sent_byte ≡ damaged_byte) × (next_byte ≡ next_byte))
differ (e, _) = absurd (omega arith)

burst_detected_example : (sent_byte ≡ sent_byte) × (next_byte ≡ next_byte)
burst_detected_example =
    burst_detected (3 ∷ 2 ∷ []) (7 ∷ []) 138 1 138 1 (omega arith, _) (omega arith) (omega arith)
      (omega arith) (omega arith) refl

addbyte-divide_byte_example : crc_addbyte 4660 86 ≡ divide_byte 4660 86
addbyte-divide_byte_example = addbyte-divide_byte 4660 86 (omega arith) (omega arith)

bytes-append_sum_example :
    let crc = crc_bytes crc_start message in
    crc_bytes crc_start (message ++ (crc / 256 ∷ crc % 256 ∷ [])) ≡ 0
bytes-append_sum_example = bytes-append_sum message

check_iff_example : (crc_check 4660 message ≡ pos 0) ↔ (crc_bytes crc_start message ≡ 4660)
check_iff_example = check_iff 4660 message

read_packet-sealed_example :
    let packet = 1 ∷ sealed message (crc_bytes crc_start message) in
    read_packet (length packet) (holding packet (char 6 ∷ []) quiet_line)
    ≡ (ok packet, record quiet_line { input = char 6 ∷ [] })
read_packet-sealed_example = read_packet-sealed message (char 6 ∷ []) quiet_line

read_packet_damaged_example :
    let crc = crc_bytes crc_start ((3 ∷ 2 ∷ []) ++ (138 ∷ 1 ∷ 7 ∷ [])) in
    let packet = 1 ∷ sealed ((3 ∷ 2 ∷ []) ++ (139 ∷ 1 ∷ 7 ∷ [])) crc in
    read_packet (length packet) (holding packet [] quiet_line)
    ≡ (err wrong_crc, record quiet_line { input = [] })
read_packet_damaged_example =
    read_packet_damaged (3 ∷ 2 ∷ []) (7 ∷ []) 138 1 139 1 [] quiet_line (omega arith, _)
      (omega arith, (omega arith, (omega arith, (omega arith, _)))) differ

read_packet_vantage_lem_example :
    let header = vantage_header in
    let crc = crc_bytes crc_start (header ++ (138 ∷ 1 ∷ 7 ∷ [])) in
    let whole = sealed (header ++ (138 ∷ 1 ∷ 7 ∷ [])) crc in
    let damaged = sealed (header ++ (139 ∷ 1 ∷ 7 ∷ [])) crc in
    (read_packet_vantage (length whole) (holding whole [] quiet_line)
      ≡ (ok whole, record quiet_line { input = [] }))
    × (read_packet_vantage (length damaged) (holding damaged [] quiet_line)
        ≡ (err wrong_crc, record quiet_line { input = [] }))
read_packet_vantage_lem_example =
    read_packet_vantage_lem (2 ∷ []) (7 ∷ []) 138 1 139 1 [] quiet_line (omega arith, _)
      (omega arith, (omega arith, (omega arith, (omega arith, _)))) differ

wakeup_lem_example :
    (wakeup 3 (record quiet_line { input = silences 3 (char 10 ∷ char 13 ∷ []) })
      ≡ (err wakeup_failed, record quiet_line { sent = line_feeds 4 [] }))
    × (wakeup 3 (record quiet_line { input = silences 4 [] })
        ≡ (err wakeup_failed, record quiet_line { sent = line_feeds 4 [] }))
wakeup_lem_example = wakeup_lem 3 3 [] [] (omega arith)

wait_ack-scattered_example :
    is_ok (wait_ack 0 (map char (10 ∷ 65 ∷ 13 ∷ []))).0
    ≡ (contains ack (10 ∷ 65 ∷ 13 ∷ []) || scattered expect (10 ∷ 65 ∷ 13 ∷ []))
wait_ack-scattered_example =
    wait_ack-scattered (10 ∷ 65 ∷ 13 ∷ []) (omega arith, (omega arith, (omega arith, _)))
