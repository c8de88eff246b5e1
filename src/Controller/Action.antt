-- ===== src/Controller/Action.antt =====
-- The effects of a reconciler. Beside the cluster's state an action carries the list of the writes
-- that were requested of the API server so far, whether or not they succeeded, the last one first.
-- The list is not part of the program; the theorems speak of it.
pub mod Keeps
pub mod Grows
use karkive.Prelude.{String, List, ◌∷◌}
use karkive.Errors.{Error, Result, ok, err}

-- A write: which object, or which status.
pub data Call : Type 0 where
  apply_config_map apply_claim apply_deployment apply_cron_job : (name : String) → Call
  delete_config_map delete_deployment delete_cron_job : (name : String) → Call
  update_status : (phase : String) → Call
  event : (type reason : String) → Call

pub record Machine (W : Type 0) : Type 0 where
  pub world : W
  pub calls : List Call

abbrev pub Action : Type 0 → Type 0 → Type 0
Action W A = Machine W → Result A × Machine W

module _ {W A : Type 0} where
  unfoldable pub pure : A → Action W A
  pure a s = (ok a, s)

  unfoldable pub raise : Error → Action W A
  raise e s = (err e, s)

  unfoldable pub lift : Result A → Action W A
  lift r s = (r, s)

  unfoldable pub read : (W → Result A) → Action W A
  read f s = (f s.world, s)

  unfoldable pub write : Call → (W → Result A × W) → Action W A
  write call f s = let (r, w) = f s.world in (r, record { world = w; calls = call ∷ s.calls })

module _ {W A B : Type 0} where
  abbrev pub resume : Result A → (Error → Action W B) → (A → Action W B) → Action W B
  resume (ok a) handler k s = k a s
  resume (err e) handler k s = handler e s

  -- if err := m; err != nil { handler } … k
  unfoldable pub try : Action W A → (Error → Action W B) → (A → Action W B) → Action W B
  unfolding pure raise lift read write
  try m handler k s = let (r, s') = m s in resume r handler k s'

  infixl 5 ◌>>=◌ ◌>>◌
  abbrev pub ◌>>=◌ : Action W A → (A → Action W B) → Action W B
  m >>= k = try m raise k

  abbrev pub ◌>>◌ : Action W A → Action W B → Action W B
  m >> k = m >>= λ _. k
