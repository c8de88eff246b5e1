-- ===== src/Controller/Report/Table.antt =====
-- A decision table for the checks that Reconcile makes before it touches an owned object: each row is a
-- test with the phase, the reason and the delay of the report, and the first row that applies counts.
use karkive.Prelude.{ℕ, String, Bool, true, false, Option, none, some, List, [], ◌∷◌, if◌then◌else◌}
use karkive.Errors.{Result, ok, err, is_not_found}

pub record Refusal : Type 0 where
  pub phase : String
  pub reason : String
  pub delay : ℕ

abbrev pub row : String → String → ℕ → Refusal
row phase reason delay = record { phase = phase; reason = reason; delay = delay }

abbrev pub first_row : List (Bool × Refusal) → Option Refusal
first_row [] = none
first_row (entry ∷ rest) = if entry.0 then some entry.1 else first_row rest

-- The check failed because its object does not exist.
abbrev pub is_missing : {A : Type 0} → Result A → Bool
is_missing (ok a) = false
is_missing (err e) = is_not_found e

-- The check failed.
abbrev pub is_failed : {A : Type 0} → Result A → Bool
is_failed (ok a) = false
is_failed (err e) = true
