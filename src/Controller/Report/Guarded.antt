-- ===== src/Controller/Report/Guarded.antt =====
-- Writes that are reports, and the results that a reconciler returns (internal/controller/owned.go).
use karkive.Prelude.{ℕ, ◌≡◌, ◌≢◌, inl, inr, Bool, true, false, List, All, arith, Bool-cases}
use karkive.Errors.{err_inj, Error, Result, ok, err, is_conflict}
use karkive.Controller.Action.{Call, update_status, event}
use karkive.Controller.Owned.{requeue_on_conflict}

-- The call writes a status or an event, and not an owned object.
abbrev pub is_report : Call → Bool
is_report (update_status phase) = true
is_report (event type reason) = true
is_report _ = false

abbrev pub OnlyReports : List Call → Type 0
OnlyReports calls = All (λ call. is_report call ≡ true) calls

pub ok-ne-err : {A : Type 0} {a : A} {e : Error} → ◌≢◌ {A = Result A} (ok a) (err e)
ok-ne-err h = cc h

pub requeue_on_conflict_cases :
    (res : Result ℕ) (e : Error) → requeue_on_conflict res ≡ err e → is_conflict e ≡ false
unfolding requeue_on_conflict
requeue_on_conflict_cases (ok delay) e h = absurd (ok-ne-err h)
requeue_on_conflict_cases (err x) e h = elim (Bool-cases (is_conflict x)) [
  | inl conflict ↦ absurd (ok-ne-err (rw conflict at h))
  | inr other ↦ ground (arith, other, err_inj (rw other at h))
]
