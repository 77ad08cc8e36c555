-- ===== src/Names/Split.antt =====
-- The parts of a fully qualified name in lib/FQField_internals.cc.
use meteo.Base.{
  ◌==◌, ◌≡◌, refl, sym, ap, ◌∙◌, [], ◌∷◌, ◌++◌, Option, none, some, ok, err, two_dots_needed,
  Bool-cases, Option-cases, inl, inr, arith,
}
use meteo.Names.{Name, FqName, cut_at_dot, split, split_at, split_station, fq_string}

abbrev front_of : Option (Name × Name) → Name
front_of none = []
front_of (some (a, b)) = a

-- What stands in front of the first dot is cut off again in front of anything.
cut_at_dot-append :
    (s a b x : Name) → cut_at_dot s ≡ some (a, b) → cut_at_dot (a ++ 46 ∷ x) ≡ some (a, x)
cut_at_dot-append [] a b x e = absurd (ground (arith, e))
cut_at_dot-append (c ∷ s) a b x e = elim (Bool-cases (c == 46)) [
  | inl dot ↦
      let first : ◌≡◌ {A = Option (Name × Name)} (some ([], s)) (some (a, b)) =
        rw (sym e, dot) refl in
      let none_before : [] ≡ a = ap front_of first in rw (sym none_before) refl
  | inr other ↦ elim (Option-cases (cut_at_dot s)) [
    | inl no_dot ↦
        let clash : ◌≡◌ {A = Option (Name × Name)} none (some (a, b)) =
          rw (sym e, other, no_dot) refl in
        absurd (ground (arith, clash))
    | inr ((a', b'), later) ↦
        let whole : ◌≡◌ {A = Option (Name × Name)} (some (c ∷ a', b')) (some (a, b)) =
          rw (sym e, other, later) refl in
        let front : (c ∷ a') ≡ a = ap front_of whole in
        let rest = cut_at_dot-append s a' b' x later in rw (sym front, other, rest) refl
  ]
]

-- The parts of a name, put together, split into the same parts.
pub split-fq_string : (f : Name) (fq : FqName) → split f ≡ ok fq → split (fq_string fq) ≡ ok fq
unfolding split fq_string
split-fq_string f fq e = elim (Option-cases (cut_at_dot f)) [
  | inl plain ↦
      let parts : ok record { stationname = []; sensorname = []; fieldname = f } ≡ ok fq =
        rw (sym e, plain) refl in
      let same : record { stationname = []; sensorname = []; fieldname = f } ≡ fq =
        ground (arith, parts) in
      rw (sym same) refl
  | inr ((st, r), first) ↦ elim (Option-cases (cut_at_dot r)) [
    | inl plain ↦
        let clash : err two_dots_needed ≡ ok fq = rw (sym e, first, plain) refl in
        absurd (ground (arith, clash))
    | inr ((se, g), second) ↦
        let parts : ok record { stationname = st; sensorname = se; fieldname = g } ≡ ok fq =
          rw (sym e, first, second) refl in
        let same : record { stationname = st; sensorname = se; fieldname = g } ≡ fq =
          ground (arith, parts) in
        let one = cut_at_dot-append f st r (se ++ (46 ∷ g)) first in
        let two = cut_at_dot-append r se g g second in
        rw (sym same)
          (ap (split_at (st ++ (46 ∷ (se ++ (46 ∷ g))))) one ∙ ap (split_station st) two)
  ]
]
