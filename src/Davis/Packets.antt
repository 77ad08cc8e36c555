-- ===== src/Davis/Packets.antt =====
-- lib/DavisStation.cc and lib/VantagePro.cc, readPacket: framed packets are read back, and damaged ones
-- are refused.
use meteo.Base.{
  ℕ, suc, ◌+◌, ◌-◌, ◌*◌, ◌/◌, ◌%◌, ◌≡◌, refl, sym, Bool, true, false, List, [], ◌∷◌, ◌++◌, Result,
  ok, err, bad_header, wrong_crc, ◌==◌, if◌then◌else◌, length, get_or, take, arith, length-append,
  get_or-append, take-append, AreBytes, ◌≢◌,
}
use meteo.Channel.{Input, Channel}
use meteo.Channel.Laws.{holding, recv_string-holding}
use meteo.Crc.{crc_bytes, crc_start, crc_check}
use meteo.Crc.Detect.{check-sub_ℕ, burst_detected}
use meteo.Davis.{is_zero, check_davis, read_packet, same, check_vantage, read_packet_vantage}

-- The verdict on a packet in parts.
abbrev verdict : Bool → ℕ → ℕ → List ℕ → Result (List ℕ)
verdict header sum stored packet =
    if header then (if sum == stored then ok packet else err wrong_crc) else err bad_header

is_zero_check :
    (crc : ℕ) (buffer : List ℕ)
    → is_zero (crc_check crc buffer) ≡ (crc_bytes crc_start buffer == crc)
is_zero_check crc buffer = rw (check-sub_ℕ crc buffer) (ground arith)

get_or_last :
    (front : List ℕ) (hi lo : ℕ)
    → (get_or (front ++ (hi ∷ lo ∷ [])) (length front + 1) 0 ≡ lo)
      × (get_or (front ++ (hi ∷ lo ∷ [])) (length front) 0 ≡ hi)
get_or_last front hi lo =
    let e : length front + 0 ≡ length front = omega arith in
    (get_or-append front (hi ∷ lo ∷ []) 1 0, rw e at (get_or-append front (hi ∷ lo ∷ []) 0 0))

check_davis_lem :
    (h : ℕ) (p : List ℕ) (hi lo : ℕ)
    → check_davis (length p + 3) (h ∷ (p ++ (hi ∷ lo ∷ [])))
      ≡ verdict (h == 1) (crc_bytes crc_start p) (lo + hi * 256) (h ∷ (p ++ (hi ∷ lo ∷ [])))
unfolding check_davis
check_davis_lem h p hi lo =
    let (second, first) = get_or_last p hi lo in
    let e1 : length p + 3 - 1 ≡ suc (length p + 1) = omega arith in
    let e2 : length p + 3 - 2 ≡ suc (length p) = omega arith in
    let e3 : length p + 3 - 3 ≡ length p = omega arith in
    rw (e1, e2, e3, take-append p (hi ∷ lo ∷ []), first, second, is_zero_check (lo + hi * 256) p)
      (ground arith)

check_vantage_lem :
    (p : List ℕ) (hi lo : ℕ)
    → same (take 3 (p ++ (hi ∷ lo ∷ []))) (76 ∷ 79 ∷ 79 ∷ []) ≡ true
    → check_vantage (length p + 2) (p ++ (hi ∷ lo ∷ []))
      ≡ verdict true (crc_bytes crc_start p) (lo + hi * 256) (p ++ (hi ∷ lo ∷ []))
unfolding check_vantage
check_vantage_lem p hi lo h =
    let (second, first) = get_or_last p hi lo in
    let e1 : length p + 2 - 1 ≡ length p + 1 = omega arith in
    let e2 : length p + 2 - 2 ≡ length p = omega arith in
    rw (h, e1, e2, take-append p (hi ∷ lo ∷ []), first, second, is_zero_check (lo + hi * 256) p)
      (ground arith)

-- A message with its check sum, high byte first.
abbrev pub sealed : List ℕ → ℕ → List ℕ
sealed p crc = p ++ (crc / 256 ∷ crc % 256 ∷ [])

eq_refl : (a : ℕ) → (a == a) ≡ true
eq_refl a = ground arith

eq_false : (a b : ℕ) → a ≢ b → (a == b) ≡ false
eq_false a b h = ground arith

bytes_of : (crc : ℕ) → crc % 256 + crc / 256 * 256 ≡ crc
bytes_of crc = omega arith

-- DavisStation::readPacket on a line that holds the header byte 1, a message and its check sum returns
-- the whole packet and leaves the rest on the line.
pub read_packet-sealed :
    (p : List ℕ) (rest : List Input) (c : Channel)
    → let packet = 1 ∷ sealed p (crc_bytes crc_start p) in
      read_packet (length packet) (holding packet rest c) ≡ (ok packet, record c { input = rest })
unfolding read_packet
read_packet-sealed p rest c =
    let crc = crc_bytes crc_start p in
    let packet = 1 ∷ sealed p crc in
    let size : length packet ≡ length p + 3 =
      omega (arith, length-append p (crc / 256 ∷ crc % 256 ∷ [])) in
    let check = check_davis_lem 1 p (crc / 256) (crc % 256) in
    rw (recv_string-holding packet rest c, size, check, bytes_of crc, eq_refl crc) refl

-- Damage to two neighbouring bytes changes the sum.
sum_ne :
    (front post : List ℕ) (a b a' b' : ℕ)
    → AreBytes post
    → AreBytes (a ∷ b ∷ a' ∷ b' ∷ [])
    → ¬ ((a ≡ a') × (b ≡ b'))
    → (crc_bytes crc_start (front ++ (a' ∷ b' ∷ post))
        == crc_bytes crc_start (front ++ (a ∷ b ∷ post)))
      ≡ false
sum_ne front post a b a' b' hp (ha, (hb, (ha', (hb', _)))) differ =
    eq_false _ _ (λ e. differ (burst_detected front post a b a' b' hp ha hb ha' hb' (sym e)))

-- DavisStation::readPacket throws on a packet whose message was damaged in one or two neighbouring
-- bytes after its check sum was taken, and has read the whole packet by then.
pub read_packet_damaged :
    (front post : List ℕ) (a b a' b' : ℕ) (rest : List Input) (c : Channel)
    → AreBytes post
    → AreBytes (a ∷ b ∷ a' ∷ b' ∷ [])
    → ¬ ((a ≡ a') × (b ≡ b'))
    → let crc = crc_bytes crc_start (front ++ (a ∷ b ∷ post)) in
      let packet = 1 ∷ sealed (front ++ (a' ∷ b' ∷ post)) crc in
      read_packet (length packet) (holding packet rest c)
      ≡ (err wrong_crc, record c { input = rest })
unfolding read_packet
read_packet_damaged front post a b a' b' rest c hp hb differ =
    let p = front ++ (a' ∷ b' ∷ post) in
    let crc = crc_bytes crc_start (front ++ (a ∷ b ∷ post)) in
    let packet = 1 ∷ sealed p crc in
    let size : length packet ≡ length p + 3 =
      omega (arith, length-append p (crc / 256 ∷ crc % 256 ∷ [])) in
    let check = check_davis_lem 1 p (crc / 256) (crc % 256) in
    rw
      (
        recv_string-holding packet rest c,
        size,
        check,
        bytes_of crc,
        sum_ne front post a b a' b' hp hb differ,
      )
      refl

-- VantagePro::readPacket, whose check sum covers the header "LOO" as well, on what the line holds: a
-- whole packet is returned, and one that was damaged behind the header in one or two neighbouring bytes
-- is refused.
pub read_packet_vantage_lem :
    (front post : List ℕ) (a b a' b' : ℕ) (rest : List Input) (c : Channel)
    → AreBytes post
    → AreBytes (a ∷ b ∷ a' ∷ b' ∷ [])
    → ¬ ((a ≡ a') × (b ≡ b'))
    → let header = 76 ∷ 79 ∷ 79 ∷ front in
      let crc = crc_bytes crc_start (header ++ (a ∷ b ∷ post)) in
      let whole = sealed (header ++ (a ∷ b ∷ post)) crc in
      let damaged = sealed (header ++ (a' ∷ b' ∷ post)) crc in
      (read_packet_vantage (length whole) (holding whole rest c)
        ≡ (ok whole, record c { input = rest }))
      × (read_packet_vantage (length damaged) (holding damaged rest c)
          ≡ (err wrong_crc, record c { input = rest }))
unfolding read_packet_vantage
read_packet_vantage_lem front post a b a' b' rest c hp hb differ =
    let header : List ℕ = 76 ∷ 79 ∷ 79 ∷ front in
    let p = header ++ (a ∷ b ∷ post) in
    let p' = header ++ (a' ∷ b' ∷ post) in
    let crc = crc_bytes crc_start p in
    let hi = crc / 256 in
    let lo = crc % 256 in
    let size : length (sealed p crc) ≡ length p + 2 =
      omega (arith, length-append p (hi ∷ lo ∷ [])) in
    let size' : length (sealed p' crc) ≡ length p' + 2 =
      omega (arith, length-append p' (hi ∷ lo ∷ [])) in
    (
      rw
          (
            recv_string-holding (sealed p crc) rest c,
            size,
            check_vantage_lem p hi lo refl,
            bytes_of crc,
            eq_refl crc,
          )
          refl,
      rw
          (
            recv_string-holding (sealed p' crc) rest c,
            size',
            check_vantage_lem p' hi lo refl,
            bytes_of crc,
            sum_ne header post a b a' b' hp hb differ,
          )
          refl,
    )
