-- ===== src/Prelude/Maps.antt =====
-- Go's `map[string]V` as an association list: a nil map and an empty one are `[]`, and a key
-- stands for the value of its first pair.
use Prim.Native.String.{String}
use mathlib.Core.Path.{◌≡◌, refl, subst}
use mathlib.Core.Bool.{true}
use mathlib.Core.Logic.{inl, inr}
use mathlib.Core.Option.{Option, none, some}
use mathlib.Core.List.{List, [], ◌∷◌}
use native.Mathlib.Omega.{arith}
use text.Mathlib.Text.{◌==◌}
use text.Mathlib.TextEquality.{eq_iff}
use text.Mathlib.TextPositions.{eq_refl}
use karkive.Prelude.Tests.{Bool-cases, if◌then◌else◌}
use karkive.Prelude.Lists.{is_fresh, are_distinct}

abbrev pub StringMap : Type 0
StringMap = List (String × String)

module _ {ℓ} {V : Type ℓ} where
  -- v, ok := m[k]
  abbrev pub lookup : String → List (String × V) → Option V
  lookup key [] = none
  lookup key (entry ∷ rest) = if entry.0 == key then some entry.1 else lookup key rest

  -- m[k] = v
  unfoldable pub insert : String → V → List (String × V) → List (String × V)
  insert key value [] = (key, value) ∷ []
  insert key value (entry ∷ rest) =
      let later = insert key value rest in
      if entry.0 == key then (key, value) ∷ rest else entry ∷ later

  pub lookup-insert :
      (key asked : String) (value : V) (m : List (String × V))
      → lookup asked (insert key value m) ≡ (if key == asked then some value else lookup asked m)
  unfolding insert
  lookup-insert key asked value [] = refl
  lookup-insert key asked value (entry ∷ rest) =
      let later = lookup-insert key asked value rest in
      ground (arith, later, eq_iff entry.0 key, eq_iff entry.0 asked, eq_iff key asked)

  pub lookup-insert_self :
      (k : String) (v : V) (m : List (String × V)) → lookup k (insert k v m) ≡ some v
  lookup-insert_self k v m = simp (lookup-insert, eq_refl)

  -- for k, v := range src { dst[k] = v }
  unfoldable pub insert_all : List (String × V) → List (String × V) → List (String × V)
  unfolding insert
  insert_all [] m = m
  insert_all ((k, v) ∷ src) m = insert_all src (insert k v m)

  -- The first value if there is one, else the second.
  abbrev pub or_else : Option V → Option V → Option V
  or_else none other = other
  or_else (some v) other = some v

  lookup_fresh :
      (key : String) (m : List (String × V))
      → is_fresh (λ (entry : String × V). entry.0) key m ≡ true
      → lookup key m ≡ none
  lookup_fresh key [] fresh = refl
  lookup_fresh key (entry ∷ rest) fresh =
      let later = lookup_fresh key rest (ground (arith, fresh)) in
      ground (arith, later, fresh, eq_iff entry.0 key, eq_iff key entry.0)

  -- The map that is copied wins, if it has each key once.
  pub lookup-insert_all :
      (asked : String) (src m : List (String × V))
      → are_distinct (λ (entry : String × V). entry.0) src ≡ true
      → lookup asked (insert_all src m) ≡ or_else (lookup asked src) (lookup asked m)
  unfolding insert_all
  lookup-insert_all asked [] m distinct = refl
  lookup-insert_all asked ((k, v) ∷ src) m distinct =
      let later = lookup-insert_all asked src (insert k v m) (ground (arith, distinct)) in
      elim (Bool-cases (k == asked)) [
        | inr other ↦ rw (later, lookup-insert k asked v m, other) refl
        | inl same ↦
            let fresh = lookup_fresh asked src (
              subst (λ key. is_fresh (λ (entry : String × V). entry.0) key src ≡ true)
                ((eq_iff k asked).0 same) (ground (arith, distinct))) in
            rw (later, lookup-insert k asked v m, same, fresh) refl
      ]

-- m[k], with the zero value of a missing key
abbrev pub get_or_empty : String → StringMap → String
get_or_empty k m = elim (lookup k m) [ none ↦ "" | some v ↦ v ]
