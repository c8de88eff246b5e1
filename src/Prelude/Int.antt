-- ===== src/Prelude/Int.antt =====
-- Go's signed integers. No operation of the source computes with one, so a value keeps its range and
-- only the tests are modelled. `negsuc n` is -(n + 1).
use mathlib.Core.Path.{◌≡◌, refl}
use mathlib.Core.Logic.{inl, inr}
use native.Mathlib.Omega.{arith}
use Prim.Native.Nat.{ℕ, zero, suc, ◌/◌, ◌%◌, ◌≤◌}
use Prim.Native.String.{String, ◌++◌}
use mathlib.Core.Bool.{Bool, true, false}
use karkive.Prelude.Tests.{ltb, eqb, Bool-cases, if◌then◌else◌}

pub data ℤ : Type 0 where
  pos : ℕ → ℤ
  negsuc : ℕ → ℤ

-- x > 0
abbrev pub is_positive : ℤ → Bool
is_positive (pos n) = ltb 0 n
is_positive (negsuc n) = false

-- x == y
abbrev pub int_eq : ℤ → ℤ → Bool
int_eq (pos m) (pos n) = eqb m n
int_eq (negsuc m) (negsuc n) = eqb m n
int_eq _ _ = false

pub int_eq_refl : (n : ℤ) → int_eq n n ≡ true
int_eq_refl (pos n) = ground arith
int_eq_refl (negsuc n) = ground arith

digit : ℕ → String
digit d =
    if eqb d 0
    then "0"
    else if eqb d 1
    then "1"
    else if eqb d 2
    then "2"
    else if eqb d 3
    then "3"
    else if eqb d 4
    then "4"
    else if eqb d 5
    then "5"
    else if eqb d 6
    then "6"
    else if eqb d 7
    then "7"
    else if eqb d 8
    then "8"
    else "9"

-- One round writes the last digit before `tail`. `n` itself is fuel enough.
format_from : ℕ → ℕ → String → String
format_from zero n tail = digit (n % 10) ++ tail
format_from (suc f) n tail =
    let more = format_from f (n / 10) (digit (n % 10) ++ tail) in
    if ltb n 10 then digit (n % 10) ++ tail else more

-- Any fuel from the number on gives the same digits: it does not run out before the last one.
format_from_enough :
    (f g n : ℕ) (tail : String) → n ≤ f → n ≤ g → format_from f n tail ≡ format_from g n tail
unfolding format_from
format_from_enough zero zero n tail le_f le_g = refl
format_from_enough zero (suc g) n tail le_f le_g = ground arith
format_from_enough (suc f) zero n tail le_f le_g = ground arith
format_from_enough (suc f) (suc g) n tail le_f le_g = elim (Bool-cases (ltb n 10)) [
  | inl small ↦ rw small refl
  | inr large ↦
      let ten : 10 ≤ n = ground (arith, large) in
      let rest =
        format_from_enough f g (n / 10) (digit (n % 10) ++ tail) (omega arith) (omega arith) in
      rw (large, rest) refl
]

-- strconv.Itoa
unfoldable pub itoa : ℤ → String
unfolding format_from digit
itoa (pos n) = format_from n n ""
itoa (negsuc n) = "-" ++ format_from (suc n) (suc n) ""
