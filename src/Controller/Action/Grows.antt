-- ===== src/Controller/Action/Grows.antt =====
-- How many writes an action requests, one rule for each way to build an action.
use karkive.Prelude.{ℕ, suc, ◌+◌, ◌≤◌, Bool, true, false, length, arith, if◌then◌else◌}
use karkive.Errors.{Error, Result, ok, err}
use karkive.Controller.Action.{Call, Machine, Action, pure, raise, lift, read, write, resume, try}

-- The action requests at most `n` writes, whether it succeeds or fails.
pub record Grows {W A : Type 0} (n : ℕ) (m : Action W A) : Type 0 where
  pub at : (s : Machine W) → length (m s).1.calls ≤ n + length s.calls

pub weaken : {W A : Type 0} {m : Action W A} (j n : ℕ) → j ≤ n → Grows j m → Grows n m
weaken j n le g = record { at = λ s. let least = g.at s in omega arith }

module _ {W A : Type 0} {n : ℕ} where
  pub Grows-pure : (a : A) → Grows {W = W} n (pure a)
  unfolding pure
  Grows-pure a = record { at = λ s. omega arith }

  pub Grows-raise : (e : Error) → Grows {W = W} {A = A} n (raise e)
  unfolding raise
  Grows-raise e = record { at = λ s. omega arith }

  pub Grows-lift : (r : Result A) → Grows {W = W} n (lift r)
  unfolding lift
  Grows-lift r = record { at = λ s. omega arith }

  pub Grows-read : (f : W → Result A) → Grows n (read f)
  unfolding read
  Grows-read f = record { at = λ s. omega arith }

  pub Grows-write : (call : Call) (f : W → Result A × W) → Grows (suc n) (write call f)
  unfolding write
  Grows-write call f = record { at = λ s. omega arith }

  pub Grows-if :
      (test : Bool) {yes_action no_action : Action W A}
      → Grows n yes_action
      → Grows n no_action
      → Grows n (if test then yes_action else no_action)
  Grows-if true grows _ = grows
  Grows-if false _ grows = grows

module _ {W A B : Type 0} where
  Grows-resume :
      (n : ℕ) (r : Result A) (handler : Error → Action W B) (next : A → Action W B)
      → ((e : Error) → Grows n (handler e))
      → ((a : A) → Grows n (next a))
      → Grows n (λ s. resume r handler next s)
  Grows-resume n (ok a) handler next gh gk = record { at = (gk a).at }
  Grows-resume n (err e) handler next gh gk = record { at = (gh e).at }

  pub Grows-try :
      (j k : ℕ) (m : Action W A) (handler : Error → Action W B) (next : A → Action W B)
      → Grows j m
      → ((e : Error) → Grows k (handler e))
      → ((a : A) → Grows k (next a))
      → Grows (j + k) (try m handler next)
  unfolding try
  Grows-try j k m handler next gm gh gk = record {
    at = λ s.
        let first = gm.at s in
        let second = (Grows-resume k (m s).0 handler next gh gk).at (m s).1 in omega arith;
  }

  -- A read, and what follows it.
  pub Grows-read_then :
      {n : ℕ} (f : W → Result A) (handler : Error → Action W B) (next : A → Action W B)
      → ((e : Error) → Grows n (handler e))
      → ((a : A) → Grows n (next a))
      → Grows n (try (read f) handler next)
  Grows-read_then f handler next gh gk = record {
    at = λ s.
        let both = (Grows-try 0 _ (read f) handler next (Grows-read f) gh gk).at s in omega arith;
  }

  -- An action after which nothing is written.
  pub Grows-last :
      {n : ℕ} (m : Action W A) (handler : Error → Action W B) (next : A → Action W B)
      → Grows n m
      → ((e : Error) → Grows 0 (handler e))
      → ((a : A) → Grows 0 (next a))
      → Grows n (try m handler next)
  Grows-last m handler next gm gh gk = record {
    at = λ s. let both = (Grows-try _ 0 m handler next gm gh gk).at s in omega arith;
  }

pub ruleset grows_rules = (
  Grows-pure, Grows-raise, Grows-lift, Grows-read, Grows-write, Grows-if, Grows-read_then,
  Grows-last,
)
