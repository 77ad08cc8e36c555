-- ===== src/Dataset.antt =====
-- lib/Dataset.cc: sets of data that the configuration describes by XML expressions. A node stands for the
-- pointer to it: `null`, an element with its name, its attributes, its first child and its next sibling, or
-- a node of another kind, as text or a comment, with its next sibling. The units of derived values are
-- arguments, and so is `atof`.
pub mod Expression
pub mod Laws
use meteo.Base.{
  ℕ, zero, suc, Bool, true, false, List, [], ◌∷◌, Option, none, some, Result, ok, err, ◌>>=◌,
  String, if◌then◌else◌, undefined, no_children, no_attribute, unknown_node, unknown_data,
  too_small, no_limit,
}
use meteo.Base.Int.{ℤ, pos}
use meteo.Base.Text.{str_eq}
use meteo.Base.Dict.{Dict, find, insert, each}
use meteo.Base.Double.{Double}
use meteo.Sensor.{before}
use meteo.Vector.{Libm, pi}
use meteo.Derived.{Elementary, TemperatureUnit, dewpoint, heatindex, windchill}
use meteo.Tdata.{Tdata, of_value}
use meteo.Tdata.Series.{apply, floor, ceil, sqr, accumulate}
use meteo.Tdata.Algebra.{
  apply2, operatorplus, operatorminus, operatortimes, operatorquotient, operatormax, operatormin,
}

pub data Node : Type 0 where
  null : Node
  element : String → Dict String → Node → Node → Node
  other : Node → Node

-- The data of a Dataset and of the query that it stands on
pub record Dataset (D : Type 0) : Type 0 where
  pub srcdata : Dict (Tdata D)
  pub data_map : Dict (Tdata D)

-- What the expressions take from outside: `atof`, the units that the database keeps, and the order in which the
-- compiler evaluates the two operands of `-` or `/`, which C++ leaves open, at the children of the element.
pub record Setting (D : Type 0) : Type 0 where
  pub atof : String → D
  pub fabs : D → D
  pub tu : TemperatureUnit
  pub wu : String
  pub left_first : Node → Bool

abbrev pub present : {A : Type 0} → Option A → Result A
present none = err no_attribute
present (some a) = ok a

abbrev pub known : {A : Type 0} → Option A → Result A
known none = err unknown_data
known (some a) = ok a

abbrev pub first_of : {A : Type 0} → Option A → Option A → Option A
first_of none b = b
first_of (some a) b = some a

module _ {D : Type 0} where
  -- Dataset::getData
  unfoldable pub get_data : Dataset D → String → Result (Tdata D)
  get_data s name = known (first_of (find s.data_map name) (find s.srcdata name))

  -- The first child of a `data` node is asked for, be it an element or not.
  abbrev pub first_child : Node → Result (Tdata D) → Result (Tdata D)
  first_child null r = err no_children
  first_child (element _ _ _ _) r = r
  first_child (other _) r = r

  -- data[name] = a
  abbrev pub set_data : String → Tdata D → Dict (Tdata D) → Dict (Tdata D)
  set_data name a data_map =
      each (λ k b. if str_eq k name then a else b) (insert before name a data_map)

module _ {D : Type 0} ⦃d : Double D⦄ ⦃m : Libm D⦄ ⦃c : Elementary D⦄ (env : Setting D) where
  -- The loop of operatorazi, which adds turns, on a bound for its rounds
  abbrev pub add_circles : ℕ → D → D
  add_circles zero a = a
  add_circles (suc rounds) a =
      let more = add_circles rounds (d.add a (d.lit (pos 360) 0)) in
      if d.lt a (d.lit (pos 0) 0) then more else a

  abbrev pub operatorazi : D → D → Result D
  operatorazi x y =
      if d.lt (d.add (env.fabs x) (env.fabs y)) (d.lit (pos 1) 2)
      then err too_small
      else ok (add_circles 1 (d.div (d.mul (d.lit (pos 180) 0) (m.atan2 x y)) pi))

  abbrev pub mapped : (D → D) → Tdata D → Tdata D
  mapped f a = apply (λ v. ok (f v)) a

  -- The attribute `limit` of `ceil` and `floor`
  abbrev pub limited : (D → Tdata D) → Option String → Result (Tdata D)
  limited f none = err no_limit
  limited f (some l) = ok (f (env.atof l))

  -- The body of a `function` node, once the argument and the name are there
  abbrev pub function : String → Option String → Tdata D → Result (Tdata D)
  function name limit a =
      if str_eq name "sqr"
      then ok (sqr a)
      else if str_eq name "sqrt"
      then ok (mapped m.sqrt a)
      else if str_eq name "sin"
      then ok (mapped m.sin a)
      else if str_eq name "cos"
      then ok (mapped m.cos a)
      else if str_eq name "tan"
      then ok (mapped c.tan a)
      else if str_eq name "ceil"
      then limited (λ l. ceil l a) limit
      else if str_eq name "floor"
      then limited (λ l. floor l a) limit
      else if str_eq name "accumulate"
      then ok (accumulate a)
      else err unknown_node

  -- The body of a `function2` node
  abbrev pub function2 : String → Tdata D → Tdata D → Result (Tdata D)
  function2 name a b =
      if str_eq name "atan2"
      then apply2 (λ y x. ok (m.atan2 y x)) a b
      else if str_eq name "azi"
      then apply2 operatorazi a b
      else if str_eq name "hypot"
      then apply2 (λ x y. ok (c.hypot x y)) a b
      else if str_eq name "dewpoint"
      then apply2 (λ h t. ok (dewpoint env.tu h t)) a b
      else if str_eq name "heatindex"
      then apply2 (λ h t. ok (heatindex env.tu h t)) a b
      else if str_eq name "windchill"
      then apply2 (windchill env.tu env.wu) a b
      else if str_eq name "max"
      then apply2 operatormax a b
      else if str_eq name "min"
      then apply2 operatormin a b
      else err unknown_node

  -- The operands of `-` and `/`, in one order or the other
  abbrev pub in_order :
      Bool
      → (one two : Result (Tdata D)) → (Tdata D → Tdata D → Result (Tdata D))
      → Result (Tdata D)
  in_order true one two f = one >>= λ a. two >>= λ b. f a b
  in_order false one two f = two >>= λ b. one >>= λ a. f a b

  -- The branches on the name of an element. `one` and `two` are the results of its first two children that are
  -- elements, and `sum` and `mult` those of the loops over its children, which the code does not return.
  abbrev pub branch :
      (String → Result (Tdata D))
      → String
      → Dict String
      → Node
      → (one two : Result (Tdata D)) (sum mult : Result (Unit {0})) → Result (Tdata D)
  branch get name attrs children one two sum mult =
      if str_eq name "data"
      then first_child children one
      else if str_eq name "constant"
      then (present (find attrs "value") >>= λ v. ok (of_value (env.atof v)))
      else if str_eq name "value"
      then present (find attrs "name") >>= get
      else if str_eq name "function"
      then (one >>= λ a. present (find attrs "name") >>= λ f. function f (find attrs "limit") a)
      else if str_eq name "function2"
      then (one >>= λ a. two >>= λ b. present (find attrs "name") >>= λ f. function2 f a b)
      else if str_eq name "sum"
      then (sum >>= λ _. err unknown_node)
      else if str_eq name "mult"
      then (mult >>= λ _. err unknown_node)
      else if str_eq name "diff"
      then in_order (env.left_first children) one two (apply2 operatorminus)
      else if str_eq name "quot"
      then in_order (env.left_first children) one two (apply2 operatorquotient)
      else err unknown_node

  -- One round of the loops: the result so far, where there is one, and that of a child
  abbrev pub joined : (D → D → Result D) → Option (Tdata D) → Result (Tdata D) → Result (Tdata D)
  joined func none r = r
  joined func (some a) r = r >>= λ b. apply2 func a b

  -- `process` is processNode, `second` is processNode at the element behind the first, and `gather` the loop
  -- of a `sum` or `mult` node.
  unfoldable mutual
    pub process : (String → Result (Tdata D)) → Node → Result (Tdata D)
    process get null = err undefined
    process get (other next) = process get next
    process get (element name attrs children next) =
        branch get name attrs children (process get children) (second get children)
          (gather get operatorplus none children) (gather get operatortimes none children)

    pub second : (String → Result (Tdata D)) → Node → Result (Tdata D)
    second get null = err undefined
    second get (other next) = second get next
    second get (element name attrs children next) = process get next

    pub gather :
        (String → Result (Tdata D))
        → (D → D → Result D)
        → Option (Tdata D)
        → Node
        → Result (Unit {0})
    gather get func acc null = ok tt
    gather get func acc (other next) = gather get func acc next
    gather get func acc (element name attrs children next) =
        joined func acc (
          branch get name attrs children (process get children) (second get children)
            (gather get operatorplus none children) (gather get operatortimes none children))
        >>= λ a. gather get func (some a) next

  abbrev attrs_of : Node → Dict String
  attrs_of null = []
  attrs_of (element name attrs children next) = attrs
  attrs_of (other next) = []

  -- Dataset::addData, at the node that the configuration has for the path
  unfoldable pub add_data : Node → Dataset D → Result (Dataset D)
  unfolding process
  add_data node s = present (find (attrs_of node) "name") >>= λ name.
      process (get_data s) node >>= λ a. ok record s { data_map = set_data name a s.data_map }

  -- Dataset::addAlldata, at the nodes of the paths
  unfoldable pub add_all_data : List Node → Dataset D → Result (Dataset D)
  unfolding add_data
  add_all_data [] s = ok s
  add_all_data (node ∷ nodes) s = add_data node s >>= add_all_data nodes
