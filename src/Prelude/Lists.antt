-- ===== src/Prelude/Lists.antt =====
-- What holds of every member of a list, and of every two of them.
use mathlib.Core.Path.{◌≡◌}
use mathlib.Core.Logic.{◌≢◌}
use mathlib.Core.Bool.{Bool, true, false, not, ◌&&◌}
use mathlib.Core.List.{List, [], ◌∷◌, ◌++◌}
use native.Mathlib.Omega.{arith}
use Prim.Native.String.{String}
use Prim.Native.Nat.{ℕ, zero, suc}
use text.Mathlib.Text.{◌==◌}
use text.Mathlib.TextEquality.{eq_iff}
use karkive.Prelude.Tests.{All, if◌then◌else◌}

abbrev pub length {ℓ} : {A : Type ℓ} → List A → ℕ
length [] = zero
length (x ∷ xs) = suc (length xs)

module _ {ℓ} {A : Type ℓ} (P : A → Type 0) where
  pub All-++ : (xs ys : List A) → All P xs → All P ys → All P (xs ++ ys)
  All-++ [] ys h k = k
  All-++ (x ∷ xs) ys (p, h) k = (p, All-++ xs ys h k)

  pub All-if : (b : Bool) (x : A) → P x → All P (if b then x ∷ [] else [])
  All-if true x p = (p, tt)
  All-if false x p = tt

  pub All_map_lem : (Q : A → Type 0) → ((x : A) → P x → Q x) → (xs : List A) → All P xs → All Q xs
  All_map_lem Q f [] h = tt
  All_map_lem Q f (x ∷ xs) (p, h) = (f x p, All_map_lem Q f xs h)

module _ {ℓ} {A : Type ℓ} (R : A → A → Type 0) where
  -- Every member is related to each one behind it.
  abbrev pub Pairwise : List A → Type 0
  Pairwise [] = Unit
  Pairwise (x ∷ xs) = All (R x) xs × Pairwise xs

  pub Pairwise-++ :
      (xs ys : List A)
      → Pairwise xs
      → Pairwise ys
      → All (λ x. All (R x) ys) xs
      → Pairwise (xs ++ ys)
  Pairwise-++ [] ys h k across = k
  Pairwise-++ (x ∷ xs) ys (p, h) k (q, across) =
      (All-++ (R x) xs ys p q, Pairwise-++ xs ys h k across)

-- No member of the list has the given name.
abbrev pub is_fresh {ℓ} : {A : Type ℓ} → (A → String) → String → List A → Bool
is_fresh name key [] = true
is_fresh name key (x ∷ xs) = not (key == name x) && is_fresh name key xs

abbrev pub are_distinct {ℓ} : {A : Type ℓ} → (A → String) → List A → Bool
are_distinct name [] = true
are_distinct name (x ∷ xs) = is_fresh name (name x) xs && are_distinct name xs

module _ {ℓ} {A : Type ℓ} (name : A → String) where
  is_fresh-All :
      (x : A) (xs : List A) → is_fresh name (name x) xs ≡ true → All (λ y. name x ≢ name y) xs
  is_fresh-All x [] h = tt
  is_fresh-All x (y ∷ ys) h =
      (ground (arith, eq_iff (name x) (name y), h), is_fresh-All x ys (ground (arith, h)))

  pub are_distinct-Pairwise :
      (xs : List A) → are_distinct name xs ≡ true → Pairwise (λ x y. name x ≢ name y) xs
  are_distinct-Pairwise [] h = tt
  are_distinct-Pairwise (x ∷ xs) h =
      (is_fresh-All x xs (ground (arith, h)), are_distinct-Pairwise xs (ground (arith, h)))

-- The members that pass a test, in order.
abbrev pub select {ℓ} : {A : Type ℓ} → (A → Bool) → List A → List A
select p [] = []
select p (x ∷ xs) = let rest = select p xs in if p x then x ∷ rest else rest
