-- ===== src/Vector.antt =====
-- lib/Vector.cc and include/Vector.h: vectors of the wind. `sqrt`, `sin`, `cos` and `atan2` are those
-- of the C library, handed in.
use meteo.Base.{ℕ, zero, suc, ◌≡◌, Bool, false, if◌then◌else◌, arith}
use meteo.Base.Int.{pos}
use meteo.Base.Double.{Double}

pub record Libm (D : Type 0) : Type 0 where
  pub sqrt : D → D
  pub sin : D → D
  pub cos : D → D
  pub atan2 : D → D → D

pub record Vector (D : Type 0) : Type 0 where
  pub x : D
  pub y : D

module _ {D : Type 0} ⦃d : Double D⦄ where
  -- PI
  abbrev pub pi : D
  pi = d.lit (pos 31415926535) 10

  -- operator+, operator- and operator*
  abbrev pub plus : Vector D → Vector D → Vector D
  plus a b = record { x = d.add a.x b.x; y = d.add a.y b.y }

  abbrev pub minus : Vector D → Vector D → Vector D
  minus a b = record { x = d.sub a.x b.x; y = d.sub a.y b.y }

  abbrev pub times : D → Vector D → Vector D
  times a b = record { x = d.mul a b.x; y = d.mul a b.y }

  -- The loop of getAzi, on a bound for its rounds.
  unfoldable pub add_turns : ℕ → D → D
  add_turns zero a = a
  add_turns (suc rounds) a =
      let more = add_turns rounds (d.add a (d.mul (d.lit (pos 2) 0) pi)) in
      if d.lt a (d.lit (pos 0) 0) then more else a

  -- An angle that one turn makes not negative, as one of `atan2` is, ends the loop within one round.
  pub add_turns_one :
      (rounds : ℕ) (a : D)
      → d.lt (d.add a (d.mul (d.lit (pos 2) 0) pi)) (d.lit (pos 0) 0) ≡ false
      → (add_turns (suc rounds) a ≡ add_turns 1 a)
        × (d.lt (add_turns (suc rounds) a) (d.lit (pos 0) 0) ≡ false)
  unfolding add_turns
  add_turns_one zero a h = ground arith
  add_turns_one (suc rounds) a h = ground arith

  module _ ⦃c : Libm D⦄ where
    -- Vector(double, double, bool)
    unfoldable pub polar : D → D → Bool → Vector D
    polar r azideg azinotarg =
        let p = d.div (d.mul pi azideg) (d.lit (pos 180) 0) in
        if azinotarg
        then record { x = d.mul r (c.sin p); y = d.mul r (c.cos p) }
        else record { x = d.mul r (c.cos p); y = d.mul r (c.sin p) }

    -- getAbs
    abbrev pub get_abs : Vector D → D
    get_abs a = c.sqrt (d.add (d.mul a.x a.x) (d.mul a.y a.y))

    abbrev pub is_small : Vector D → Bool
    is_small a = d.lt (get_abs a) (d.lit (pos 1) 4)

    -- getArg and getAzi
    abbrev pub get_arg : Vector D → D
    get_arg a = if is_small a then d.lit (pos 0) 0 else c.atan2 a.y a.x

    unfoldable pub get_azi : Vector D → D
    unfolding add_turns
    get_azi a = if is_small a then d.lit (pos 0) 0 else add_turns 1 (c.atan2 a.x a.y)

    -- getAzideg
    unfoldable pub get_azideg : Vector D → D
    unfolding get_azi
    get_azideg a = d.div (d.mul (d.lit (pos 180) 0) (get_azi a)) pi
