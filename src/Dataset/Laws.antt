-- ===== src/Dataset/Laws.antt =====
-- The data that lib/Dataset.cc keeps.
use meteo.Base.{
  ◌≡◌, ◌≢◌, refl, ap, ◌∙◌, Option, none, some, ok, ◌>>=◌, String, if◌then◌else◌, inl, inr,
  Bool-cases, Option-cases,
}
use meteo.Base.Text.{str_eq, str_eq_iff, str_eq_other}
use meteo.Base.Dict.{Dict, find, insert, on, find-each, find-insert, with_entry}
use meteo.Base.Double.{Double}
use meteo.Sensor.{before}
use meteo.Vector.{Libm}
use meteo.Derived.{Elementary}
use meteo.Tdata.{Tdata}
use meteo.Dataset.{
  Node, Dataset, Setting, process, get_data, add_data, set_data, known, first_of, present,
}

on_same : {A : Type 0} (o : Option A) → on (λ b. b) o ≡ o
on_same none = refl
on_same (some a) = refl

find-set_data :
    {D : Type 0} (k : String) (a : Tdata D) (m : Dict (Tdata D)) (n : String)
    → find (set_data k a m) n ≡ with_entry k a (find m) n
find-set_data k a m n =
    find-each (λ j b. if str_eq j k then a else b) (insert before k a m) n
    ∙ ap (on (λ b. if str_eq n k then a else b)) (find-insert before k a m n)
    ∙ elim (Bool-cases (str_eq n k)) [
      | inl same ↦ elim (Option-cases (find m k)) [
        | inl new ↦ rw (new, same) refl
        | inr (b, there) ↦
            let here : find m n ≡ some b = ap (find m) ((str_eq_iff n k).0 same) ∙ there in
            rw (there, here, same) refl
      ]
      | inr other ↦ elim (Option-cases (find m k)) [
        | inl new ↦ rw (new, other) (on_same (find m n))
        | inr (b, there) ↦ rw (there, other) (on_same (find m n))
      ]
    ]

module _ {D : Type 0} ⦃d : Double D⦄ ⦃m : Libm D⦄ ⦃c : Elementary D⦄ (env : Setting D) where
  -- Where an element has a name and an expression with a result, `addData` succeeds; the name then stands for
  -- that result, and every other name for what it stood for before.
  pub get_data-add_data :
      (s : Dataset D) (name tag : String) (attrs : Dict String) (children next : Node) (a : Tdata D)
      → find attrs "name" ≡ some name
      → process env (get_data s) (Node.element tag attrs children next) ≡ ok a
      → (s' : Dataset D) × (add_data env (Node.element tag attrs children next) s ≡ ok s')
        × (get_data s' name ≡ ok a)
        × ((n : String) → n ≢ name → get_data s' n ≡ get_data s n)
  unfolding add_data get_data
  get_data-add_data s name tag attrs children next a named done = (
    record s { data_map = set_data name a s.data_map },
    ap
          (λ o. present o >>= λ n.
            process env (get_data s) (Node.element tag attrs children next) >>= λ b.
            ok record s { data_map = set_data n b s.data_map })
          named
        ∙ ap (λ r. r >>= λ b. ok record s { data_map = set_data name b s.data_map }) done,
    ap (λ o. known (first_of o (find s.srcdata name)))
        (find-set_data name a s.data_map name
          ∙ ap (λ b. if b then some a else find s.data_map name) ((str_eq_iff name name).1 refl)),
    λ n apart.
        ap (λ o. known (first_of o (find s.srcdata n)))
          (find-set_data name a s.data_map n
            ∙ ap (λ b. if b then some a else find s.data_map n) (str_eq_other n name apart)),
  )
