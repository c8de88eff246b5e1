-- ===== src/Errors.antt =====
-- Go's `error` values as the operator meets them: errors of the API server
-- (k8s.io/apimachinery/pkg/api/errors), texts of fmt.Errorf, and ownedApplyError of
-- internal/controller/owned.go, which wraps another error.
use karkive.Prelude.{◌≡◌, refl, ◌⊎◌, inl, inr, String, Bool, true, false}

-- What apierrors.IsNotFound and apierrors.IsConflict tell apart.
pub data ErrorKind : Type 0 where
  not_found conflict other : ErrorKind

pub data Error : Type 0 where
  api : ErrorKind → (message : String) → Error
  plain : (message : String) → Error
  owned_apply : (reason : String) → Error → Error

-- err.Error()
unfoldable pub message : Error → String
message (api k m) = m
message (plain m) = m
message (owned_apply reason e) = message e

-- apierrors.IsNotFound, which looks through Unwrap
unfoldable pub is_not_found : Error → Bool
is_not_found (api ErrorKind.not_found m) = true
is_not_found (api k m) = false
is_not_found (plain m) = false
is_not_found (owned_apply reason e) = is_not_found e

-- apierrors.IsConflict, which looks through Unwrap
unfoldable pub is_conflict : Error → Bool
is_conflict (api ErrorKind.conflict m) = true
is_conflict (api k m) = false
is_conflict (plain m) = false
is_conflict (owned_apply reason e) = is_conflict e

-- A value or an error.
pub data Result {ℓ} (A : Type ℓ) : Type ℓ where
  ok : A → Result A
  err : Error → Result A

pub Result-cases {ℓ} :
    {A : Type ℓ} (r : Result A) → ((a : A) × (r ≡ ok a)) ⊎ ((e : Error) × (r ≡ err e))
Result-cases (ok a) = inl (a, refl)
Result-cases (err e) = inr (e, refl)

pub ok_inj {ℓ} : {A : Type ℓ} {a b : A} → ok a ≡ ok b → a ≡ b
ok_inj e = cc e

pub err_inj {ℓ} : {A : Type ℓ} {d e : Error} → ◌≡◌ {A = Result A} (err d) (err e) → d ≡ e
err_inj h = cc h

pub err-ne-ok {ℓ} : {A : Type ℓ} {e : Error} {a : A} → ¬ (◌≡◌ {A = Result A} (err e) (ok a))
err-ne-ok h = cc h
