-- ===== src/Dataset/Expression.antt =====
-- The expressions that the nodes of lib/Dataset.cc are written for.
use meteo.Base.{
  ◌≡◌, refl, [], ◌∷◌, Option, none, some, Result, ok, err, ◌>>=◌, String, Bool, true, false,
  if◌then◌else◌, no_limit, too_small, division_by_zero,
}
use meteo.Base.Int.{pos}
use meteo.Base.Dict.{Dict}
use meteo.Base.Double.{Double}
use meteo.Vector.{Libm, pi}
use meteo.Derived.{Elementary, dewpoint, heatindex, windchill}
use meteo.Tdata.{Tdata, of_value}
use meteo.Tdata.Series.{apply, accumulate}
use meteo.Tdata.Algebra.{apply2}
use meteo.Dataset
use meteo.Dataset.{Node, Setting}

-- The functions of one and of two arguments.
pub data Function : Type 0 where
  square sqrt sin cos tan accumulated : Function
  top_limit bottom_limit : Option String → Function

pub data Function2 : Type 0 where
  atan2 azi hypot dew heat chill max min : Function2

pub data Expr : Type 0 where
  constant : String → Expr
  value : String → Expr
  call : Function → Expr → Expr
  call2 : Function2 → Expr → Expr → Expr
  diff quot : Expr → Expr → Expr
  data_of : Expr → Expr

abbrev pub word_of : Function → String
word_of Function.square = "sqr"
word_of Function.sqrt = "sqrt"
word_of Function.sin = "sin"
word_of Function.cos = "cos"
word_of Function.tan = "tan"
word_of Function.accumulated = "accumulate"
word_of (Function.top_limit l) = "ceil"
word_of (Function.bottom_limit l) = "floor"

abbrev pub limit_of : Function → Option String
limit_of Function.square = none
limit_of Function.sqrt = none
limit_of Function.sin = none
limit_of Function.cos = none
limit_of Function.tan = none
limit_of Function.accumulated = none
limit_of (Function.top_limit l) = l
limit_of (Function.bottom_limit l) = l

abbrev pub name2_of : Function2 → String
name2_of Function2.atan2 = "atan2"
name2_of Function2.azi = "azi"
name2_of Function2.hypot = "hypot"
name2_of Function2.dew = "dewpoint"
name2_of Function2.heat = "heatindex"
name2_of Function2.chill = "windchill"
name2_of Function2.max = "max"
name2_of Function2.min = "min"

abbrev pub limits : Option String → Dict String
limits none = []
limits (some l) = ("limit", l) ∷ []

-- The nodes of an expression, each with a text in front of it, and what follows them.
abbrev pub node_of : Expr → Node → Node
node_of (Expr.constant v) next =
    Node.other (Node.element "constant" (("value", v) ∷ []) Node.null next)
node_of (Expr.value n) next = Node.other (Node.element "value" (("name", n) ∷ []) Node.null next)
node_of (Expr.call f e) next =
    Node.other (
      Node.element "function" (("name", word_of f) ∷ limits (limit_of f)) (node_of e Node.null)
        next)
node_of (Expr.call2 f a b) next =
    Node.other
      (Node.element "function2" (("name", name2_of f) ∷ []) (node_of a (node_of b Node.null)) next)
node_of (Expr.diff a b) next =
    Node.other (Node.element "diff" [] (node_of a (node_of b Node.null)) next)
node_of (Expr.quot a b) next =
    Node.other (Node.element "quot" [] (node_of a (node_of b Node.null)) next)
node_of (Expr.data_of e) next = Node.other (Node.element "data" [] (node_of e Node.null) next)

module _ {D : Type 0} ⦃d : Double D⦄ ⦃m : Libm D⦄ ⦃c : Elementary D⦄ (env : Setting D) where
  -- The function of each value, or what is done with all of them. A limit from above is called `ceil`.
  abbrev pub limited_by : (D → D → D) → Option String → Tdata D → Result (Tdata D)
  limited_by f none a = err no_limit
  limited_by f (some l) a = ok (apply (λ v. ok (f v (env.atof l))) a)

  abbrev pub eval_call : Function → Tdata D → Result (Tdata D)
  eval_call Function.square a = ok (apply (λ v. ok (d.mul v v)) a)
  eval_call Function.sqrt a = ok (apply (λ v. ok (m.sqrt v)) a)
  eval_call Function.sin a = ok (apply (λ v. ok (m.sin v)) a)
  eval_call Function.cos a = ok (apply (λ v. ok (m.cos v)) a)
  eval_call Function.tan a = ok (apply (λ v. ok (c.tan v)) a)
  eval_call Function.accumulated a = ok (accumulate a)
  eval_call (Function.top_limit l) a = limited_by (λ v top. if d.lt v top then v else top) l a
  eval_call (Function.bottom_limit l) a =
      limited_by (λ v bottom. if d.lt v bottom then bottom else v) l a

  -- The angle of two coordinates in degrees from 0 on, unless both are small.
  abbrev pub direction_of : D → D → Result D
  direction_of y x =
      let angle = d.div (d.mul (d.lit (pos 180) 0) (m.atan2 y x)) pi in
      if d.lt (d.add (env.fabs y) (env.fabs x)) (d.lit (pos 1) 2)
      then err too_small
      else ok (if d.lt angle (d.lit (pos 0) 0) then d.add angle (d.lit (pos 360) 0) else angle)

  -- The function of the values of the same time.
  abbrev pub of_values : Function2 → D → D → Result D
  of_values Function2.atan2 y x = ok (m.atan2 y x)
  of_values Function2.azi y x = direction_of y x
  of_values Function2.hypot x y = ok (c.hypot x y)
  of_values Function2.dew h t = ok (dewpoint env.tu h t)
  of_values Function2.heat h t = ok (heatindex env.tu h t)
  of_values Function2.chill t w = windchill env.tu env.wu t w
  of_values Function2.max x y = ok (if d.lt y x then x else y)
  of_values Function2.min x y = ok (if d.lt x y then x else y)

  abbrev pub quotient : D → D → Result D
  quotient x y = if d.eq y (d.lit (pos 0) 0) then err division_by_zero else ok (d.div x y)

  -- Both operands, the left or the right one first.
  abbrev pub both_of : Bool → Result (Tdata D) → Result (Tdata D) → Result (Tdata D × Tdata D)
  both_of left r s =
      if left then (r >>= λ x. s >>= λ y. ok (x, y)) else (s >>= λ y. r >>= λ x. ok (x, y))

  -- The value of an expression.
  abbrev pub eval : (String → Result (Tdata D)) → Expr → Result (Tdata D)
  eval get (Expr.constant v) = ok (of_value (env.atof v))
  eval get (Expr.value n) = get n
  eval get (Expr.call f e) = eval get e >>= eval_call f
  eval get (Expr.call2 f a b) =
      both_of true (eval get a) (eval get b) >>= λ (x, y). apply2 (of_values f) x y
  eval get (Expr.diff a b) =
      both_of (env.left_first (node_of a (node_of b Node.null))) (eval get a) (eval get b)
      >>= λ (x, y). apply2 (λ v w. ok (d.sub v w)) x y
  eval get (Expr.quot a b) =
      both_of (env.left_first (node_of a (node_of b Node.null))) (eval get a) (eval get b)
      >>= λ (x, y). apply2 quotient x y
  eval get (Expr.data_of e) = eval get e

  taken :
      (left : Bool) (r s : Result (Tdata D)) (g h : Tdata D → Tdata D → Result (Tdata D))
      → ((x y : Tdata D) → g x y ≡ h x y)
      → Dataset.in_order env left r s g ≡ (both_of left r s >>= λ (x, y). h x y)
  taken true (ok x) (ok y) g h same = same x y
  taken true (ok x) (err e) g h same = refl
  taken true (err e) s g h same = refl
  taken false (ok x) (ok y) g h same = same x y
  taken false (err e) (ok y) g h same = refl
  taken false r (err e) g h same = refl
