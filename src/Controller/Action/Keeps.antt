-- ===== src/Controller/Action/Keeps.antt =====
-- What an action does to the list of requested writes, one rule for each way to build an action.

use karkive.Prelude.{◌≡◌, refl, ◌⊎◌, inl, inr, Bool, true, false, List, ◌∷◌, if◌then◌else◌}
use karkive.Errors.{Error, Result, ok, err, Result-cases}
use karkive.Controller.Action.{Call, Machine, Action, pure, raise, lift, read, write, resume, try}

-- The action keeps `P`, whether it succeeds or fails.
pub record Keeps {W A : Type 0} (P : List Call → Type 0) (m : Action W A) : Type 0 where
  pub at : (s : Machine W) → P s.calls → P (m s).1.calls

module _ {W A : Type 0} {P : List Call → Type 0} where
  pub Keeps-pure : (a : A) → Keeps {W = W} P (pure a)
  unfolding pure
  Keeps-pure a = record { at = λ s h. h }

  pub Keeps-raise : (e : Error) → Keeps {W = W} {A = A} P (raise e)
  unfolding raise
  Keeps-raise e = record { at = λ s h. h }

  pub Keeps-lift : (r : Result A) → Keeps {W = W} P (lift r)
  unfolding lift
  Keeps-lift r = record { at = λ s h. h }

  pub Keeps-read : (f : W → Result A) → Keeps P (read f)
  unfolding read
  Keeps-read f = record { at = λ s h. h }

  pub Keeps-write :
      (call : Call) (f : W → Result A × W)
      → ((calls : List Call) → P calls → P (call ∷ calls))
      → Keeps P (write call f)
  unfolding write
  Keeps-write call f keep = record { at = λ s h. keep s.calls h }

  pub Keeps-if :
      (test : Bool) {yes_action no_action : Action W A}
      → Keeps P yes_action
      → Keeps P no_action
      → Keeps P (if test then yes_action else no_action)
  Keeps-if true kept _ = kept
  Keeps-if false _ kept = kept

module _ {W A B : Type 0} {P : List Call → Type 0} where
  Keeps-resume :
      (r : Result A) (handler : Error → Action W B) (k : A → Action W B)
      → ((e : Error) → Keeps P (handler e))
      → ((a : A) → Keeps P (k a))
      → Keeps P (λ s. resume r handler k s)
  Keeps-resume (ok a) handler k kh kk = record { at = (kk a).at }
  Keeps-resume (err e) handler k kh kk = record { at = (kh e).at }

  pub Keeps-try :
      (m : Action W A) (handler : Error → Action W B) (k : A → Action W B)
      → Keeps P m
      → ((e : Error) → Keeps P (handler e))
      → ((a : A) → Keeps P (k a))
      → Keeps P (try m handler k)
  unfolding try
  Keeps-try m handler k km kh kk = record {
    at = λ s h. (Keeps-resume (m s).0 handler k kh kk).at (m s).1 (km.at s h);
  }

pub ruleset keeps_rules =
    (Keeps-pure, Keeps-raise, Keeps-lift, Keeps-read, Keeps-write, Keeps-if, Keeps-try)

-- Rules for `P` after the action, unless `Q` holds: an action leaves `P` on every path but one.
module _ {W : Type 0} (P : List Call → Type 0) {Q : Type 0} where
  pub unless_try :
      {A B : Type 0} (m : Action W A) (handler : Error → Action W B) (k : A → Action W B)
      (s : Machine W)
      → ((e : Error) → (m s).0 ≡ err e → P (handler e (m s).1).1.calls)
      → ((a : A) → (m s).0 ≡ ok a → P (k a (m s).1).1.calls ⊎ Q)
      → P (try m handler k s).1.calls ⊎ Q
  unfolding try
  unless_try m handler k s failed done = elim (Result-cases (m s).0) [
    | inl (a, e) ↦ rw (e, resume) (done a e)
    | inr (x, e) ↦ rw (e, resume) (inl (failed x e))
  ]

  pub unless_if :
      {A : Type 0} (b : Bool) (m n : Action W A) (s : Machine W)
      → (b ≡ true → P (m s).1.calls ⊎ Q)
      → (b ≡ false → P (n s).1.calls ⊎ Q)
      → P ((if b then m else n) s).1.calls ⊎ Q
  unless_if true m n s yes_case no_case = yes_case refl
  unless_if false m n s yes_case no_case = no_case refl
