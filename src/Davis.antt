-- ===== src/Davis.antt =====
-- lib/DavisStation.cc, lib/OldDavisStation.cc and lib/VantagePro.cc: the protocol of the Davis stations.
pub mod Ack
pub mod Packets
pub mod Wakeup
use Prim.Native.Nat.{bit_or}
use meteo.Base.{
  ℕ, zero, suc, ◌+◌, ◌-◌, ◌*◌, ◌/◌, ◌%◌, Bool, true, false, not, ◌&&◌, List, [], ◌∷◌, ◌++◌, Reason,
  Result, ok, err, no_ack, timeout, cannot_receive, bad_header, wrong_crc, wakeup_failed, ltb, leb,
  ◌==◌, if◌then◌else◌, length, get_or, take, drop,
}
use meteo.Base.Int.{ℤ, pos, negsuc, ltb_ℤ}
use meteo.Channel.{
  Input, char, quiet, closed, failed, Channel, M, pure, throw, ◌>>=◌, ◌>>◌, send_string, send_char,
  recv_char, recv_string, drain, catch,
}
use meteo.Crc.{crc_check}

-- `#define ACK 6`, and the text "\r\nOK\n\r"
abbrev pub ack : ℕ
ack = 6

abbrev pub expect : List ℕ
expect = 13 ∷ 10 ∷ 79 ∷ 75 ∷ 10 ∷ 13 ∷ []

-- One round of the loop of DavisStation::startLoop on the character `c`: the new index, and whether
-- the loop is done.
pub ack_step : ℕ → ℕ → ℕ × Bool
ack_step idx c =
    let idx' = if c == get_or expect idx 0 then idx + 1 else idx in
    (idx', if idx' == length expect then true else c == ack)

-- The loop, over what is left on the line. A char is signed: one from 128 on is negative.
unfoldable pub wait_ack : ℕ → List Input → Result (Unit {0}) × List Input
unfolding ack_step
wait_ack idx [] = (err timeout, [])
wait_ack idx (char c ∷ rest) =
    let (idx', done) = ack_step idx c in
    let next = wait_ack idx' rest in
    if leb 128 c then (err no_ack, rest) else if done then (ok tt, rest) else next
wait_ack idx (quiet ∷ rest) = (err timeout, rest)
wait_ack idx (closed ∷ rest) = (err cannot_receive, rest)
wait_ack idx (failed ∷ rest) = (err cannot_receive, rest)

-- DavisStation::startLoop: on success the number of packets is remembered, which is the result here.
unfoldable pub start_loop : ℕ → M ℕ
start_loop p c =
    let (r, rest) = wait_ack 0 c.input in
    (elim r [ ok _ ↦ ok p | err e ↦ err e ], record c { input = rest })

-- The two last bytes of a packet, as `crc_t`.
abbrev stored_crc : ℕ → List ℕ → ℕ
stored_crc size packet = get_or packet (size - 1) 0 + get_or packet (size - 2) 0 * 256

abbrev is_zero : ℤ → Bool
is_zero (pos n) = n == 0
is_zero (negsuc n) = false

-- DavisStation::readPacket: the header byte 0x01 is not part of the check sum.
check_davis : ℕ → List ℕ → Result (List ℕ)
check_davis size packet =
    if not (get_or packet 0 0 == 1)
    then err bad_header
    else if not (is_zero (crc_check (stored_crc size packet) (take (size - 3) (drop 1 packet))))
    then err wrong_crc
    else ok packet

abbrev returning : {A : Type 0} → Result A → M A
returning r c = (r, c)

pub read_packet : ℕ → M (List ℕ)
unfolding check_davis
read_packet size = do packet ← recv_string size; returning (check_davis size packet)

-- `==` of two strings of bytes.
abbrev pub same : List ℕ → List ℕ → Bool
same [] [] = true
same [] (_ ∷ _) = false
same (_ ∷ _) [] = false
same (a ∷ xs) (b ∷ ys) = a == b && same xs ys

-- VantagePro::readPacket: the packet starts with "LOO", and the check sum covers the header.
check_vantage : ℕ → List ℕ → Result (List ℕ)
check_vantage size packet =
    if not (same (take 3 packet) (76 ∷ 79 ∷ 79 ∷ []))
    then err bad_header
    else if not (is_zero (crc_check (stored_crc size packet) (take (size - 2) packet)))
    then err wrong_crc
    else ok packet

pub read_packet_vantage : ℕ → M (List ℕ)
unfolding check_vantage
read_packet_vantage size = do packet ← recv_string size; returning (check_vantage size packet)

-- One round of the loop of VantagePro::wakeup: whether the station has answered "\n\r".
unfoldable pub call_once : M Bool
call_once = do
  send_char 10
  response ← catch (recv_string 2) []
  if same response (10 ∷ 13 ∷ []) then pure true else (drain >> pure false)

-- The loop, with `loops` at its value before the round; the result is `loops` after the loop.
unfoldable pub call_loop : ℕ → M ℤ
unfolding call_once
call_loop zero = call_once >>= λ answered. pure (if answered then pos 0 else negsuc 0)
call_loop (suc loops) = call_once >>= λ answered.
    (let again = call_loop loops in if answered then pure (pos (suc loops)) else again)

abbrev pub not_positive : ℤ → Bool
not_positive (pos n) = n == 0
not_positive (negsuc n) = true

-- VantagePro::wakeup
unfoldable pub wakeup : ℕ → M (Unit {0})
unfolding call_loop
wakeup iterations = do
  loops ← call_loop iterations
  if not_positive loops then throw wakeup_failed else pure tt

-- The bytes of the LOOP command of the old stations: `65536 - p` as an unsigned short, low byte first.
unfoldable pub loop_command : ℕ → List ℕ
loop_command p =
    let n = (65536 - p % 65536) % 65536 in 76 ∷ 79 ∷ 79 ∷ 80 ∷ n % 256 ∷ n / 256 ∷ 13 ∷ []

-- OldDavisStation::startLoop
unfoldable pub start_loop_old : ℕ → M ℕ
unfolding loop_command start_loop
start_loop_old p = do send_string (loop_command p); start_loop p

-- OldDavisStation::readBytes; the bank is not used. The reply is returned with its ACK.
unfoldable pub read_bytes : ℕ → ℕ → ℕ → M (List ℕ)
read_bytes bank offs count = do
  send_string (87 ∷ 82 ∷ 68 ∷ bit_or 4 (count * 32) % 256 ∷ offs % 256 ∷ 13 ∷ [])
  reply ← recv_string (count + 1)
  if get_or reply 0 0 == ack then pure reply else throw no_ack

-- `%d` and `%02x` of snprintf, from the C library.
module _ (decimal hex2 : ℕ → List ℕ) where
  -- VantagePro::startLoop
  unfoldable pub start_loop_vantage : ℕ → M ℕ
  unfolding wakeup start_loop
  start_loop_vantage p = do
    wakeup 3
    send_string ((76 ∷ 79 ∷ 79 ∷ 80 ∷ 32 ∷ []) ++ (decimal p ++ (10 ∷ [])))
    start_loop p

  -- VantagePro::eeprom
  unfoldable pub eeprom : ℕ → ℕ → M (List ℕ)
  eeprom eeaddr bytes = do
    send_string
        ((69 ∷ 69 ∷ 66 ∷ 82 ∷ 68 ∷ 32 ∷ []) ++ (hex2 eeaddr ++ (32 ∷ hex2 bytes ++ (10 ∷ []))))
    response ← recv_string (bytes + 1 + 2)
    pure (drop 1 response)
