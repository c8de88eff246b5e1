-- ===== src/Controller/Owned/Reasons.antt =====
-- What a failure of ensureOwned of internal/controller/owned.go tells.
use karkive.Prelude.{
  arith, String, ◌≡◌, refl, ◌⊎◌, inl, inr, true, false, List, ◌∷◌, ◌++◌, Bool-cases, sym, ap, ◌∙◌,
  ◌==◌,
}
use karkive.Errors.{Error, owned_apply, Result, ok, err, Result-cases, err_inj, err-ne-ok}
use karkive.Kube.Meta.{QuantityOps}
use karkive.Resources.Defaults.{persistence_enabled}
use karkive.Controller.Client.{Client}
use karkive.Controller.Action.{
  Call, apply_config_map, apply_cron_job, Machine, Action, raise, pure, try, resume,
}
use karkive.Controller.Owned.{
  OwnedResources, with_reason, ensure_config_map, ensure_claim, ensure_volume_holder,
  ensure_cron_job, ensure_owned,
}
use karkive.Controller.Owned.Order.{
  HolderCalls, claim_calls, ensure_config_map-calls, ensure_claim-calls, ensure_volume_holder-calls,
  ensure_cron_job-calls,
}

-- The error is the given reason, around another error.
abbrev pub HasReason : String → Error → Type 0
HasReason reason e = (inner : Error) × (e ≡ owned_apply reason inner)

module _ {W A B : Type 0} where
  bind_failed :
      (m : Action W A) (k : A → Action W B) (s : Machine W) (e : Error)
      → (try m raise k s).0 ≡ err e
      → (((m s).0 ≡ err e) × ((try m raise k s).1 ≡ (m s).1))
        ⊎ ((a : A) × ((m s).0 ≡ ok a)
            × ((k a (m s).1).0 ≡ err e)
            × ((try m raise k s).1 ≡ (k a (m s).1).1))
  unfolding try raise
  bind_failed m k s e failed = elim (Result-cases (m s).0) [
    | inl (a, done) ↦
        let same : try m raise k s ≡ k a (m s).1 = rw (done, resume) refl in
        inr (
          a,
          done,
          sym (ap (λ (o : Result B × Machine W). o.0) same) ∙ failed,
          ap (λ (o : Result B × Machine W). o.1) same,
        )
    | inr (d, bad) ↦
        let same : try m raise k s ≡ (err d, (m s).1) = rw (bad, resume) refl in
        let equal = err_inj (sym failed ∙ ap (λ (o : Result B × Machine W). o.0) same) in
        inl
          (bad ∙ ap (λ (x : Error). err x) (sym equal), ap (λ (o : Result B × Machine W). o.1) same)
  ]

with_reason_failed :
    {W A : Type 0} (reason : String) (m : Action W A) (s : Machine W) (e : Error)
    → (with_reason reason m s).0 ≡ err e
    → HasReason reason e
unfolding with_reason try raise pure
with_reason_failed reason m s e failed = elim (Result-cases (m s).0) [
  | inl (a, done) ↦
      let same : (with_reason reason m s).0 ≡ ok a = rw (done, resume) refl in
      absurd (err-ne-ok (sym failed ∙ same))
  | inr (d, bad) ↦
      let same : (with_reason reason m s).0 ≡ err (owned_apply reason d) = rw (bad, resume) refl in
      (d, err_inj (sym failed ∙ same))
]

-- with_reason … followed by a result that cannot fail
with_reason_then_failed :
    {W A : Type 0} (reason : String) (m : Action W A) (s : Machine W) (e : Error)
    → (try (with_reason reason m) raise (λ _. pure tt) s).0 ≡ err e
    → HasReason reason e
unfolding pure
with_reason_then_failed reason m s e failed =
    elim (bind_failed (with_reason reason m) (λ _. pure tt) s e failed) [
      | inl (bad, _) ↦ with_reason_failed reason m s e bad
      | inr (a, _, bad, _) ↦ absurd (err-ne-ok (sym bad))
    ]

module _ {W : Type 0} (client : Client W) (ops : QuantityOps) (spec : OwnedResources) where
  ensure_claim_failed :
      (s : Machine W) (e : Error)
      → (ensure_claim client ops spec s).0 ≡ err e
      → (persistence_enabled spec.persistence ≡ true) × HasReason "PVCError" e
  unfolding ensure_claim pure
  ensure_claim_failed s e failed = elim (Bool-cases (persistence_enabled spec.persistence)) [
    | inl on ↦ (on, with_reason_then_failed "PVCError" _ s e (rw on at failed))
    | inr off ↦ absurd (err-ne-ok (sym failed ∙ rw off refl))
  ]

  -- Which of its two reasons the step on the holder gives, by what the spec asks for.
  abbrev pub HolderReason : Error → Type 0
  HolderReason e =
      ((spec.volume_holder ≡ true) × HasReason "VolumeHolderError" e)
      ⊎ ((spec.volume_holder ≡ false) × HasReason "VolumeHolderCleanupError" e)

  ensure_volume_holder_failed :
      (s : Machine W) (e : Error) → (ensure_volume_holder client spec s).0 ≡ err e → HolderReason e
  unfolding ensure_volume_holder pure
  ensure_volume_holder_failed s e failed = elim (Bool-cases spec.volume_holder) [
    | inl held ↦ inl (held, with_reason_then_failed "VolumeHolderError" _ s e (rw held at failed))
    | inr free ↦ elim (Bool-cases (spec.holder_name == "")) [
      | inl unnamed ↦ absurd (err-ne-ok (sym failed ∙ rw (free, unnamed) refl))
      | inr named ↦ inr (
        free,
        with_reason_then_failed "VolumeHolderCleanupError" _ s e (rw (free, named) at failed),
      )
    ]
  ]

  ensure_config_map_failed :
      (s : Machine W) (e : Error)
      → (ensure_config_map client spec s).0 ≡ err e
      → HasReason "ConfigMapError" e
  unfolding ensure_config_map
  ensure_config_map_failed s e failed = with_reason_failed "ConfigMapError" _ s e failed

  ensure_cron_job_failed :
      (s : Machine W) (e : Error)
      → (ensure_cron_job client spec s).0 ≡ err e
      → HasReason "CronJobError" e
  unfolding ensure_cron_job
  ensure_cron_job_failed s e failed = with_reason_failed "CronJobError" _ s e failed

  -- The reason of the error names the step that failed, and the writes end at that step.
  abbrev pub FailedStep : List Call → Error → List Call → Type 0
  FailedStep before e after =
      let config = apply_config_map spec.name ∷ before in
      let claim = claim_calls spec ++ config in
      (HasReason "ConfigMapError" e × (after ≡ config))
      ⊎ ((persistence_enabled spec.persistence ≡ true) × HasReason "PVCError" e × (after ≡ claim))
      ⊎ (HolderReason e × ((new : List Call) × HolderCalls spec new × (after ≡ new ++ claim)))
      ⊎ (HasReason "CronJobError" e
          × ((new : List Call) × HolderCalls spec new
              × (after ≡ apply_cron_job spec.name ∷ (new ++ claim))))

  -- Where ensureOwned fails, the reason in its error names the step that failed, and it has requested
  -- that step and the ones before it and nothing else.
  pub ensure_owned_failed :
      (s : Machine W) (e : Error)
      → (ensure_owned client ops spec s).0 ≡ err e
      → FailedStep s.calls e (ensure_owned client ops spec s).1.calls
  unfolding ensure_owned
  ensure_owned_failed s e failed =
      let s1 = (ensure_config_map client spec s).1 in
      let s2 = (ensure_claim client ops spec s1).1 in
      let s3 = (ensure_volume_holder client spec s2).1 in
      let c1 = ensure_config_map-calls client spec s in
      let c2 = ensure_claim-calls client ops spec s1 in
      let (new, held, c3) = ensure_volume_holder-calls client spec s2 in
      let c4 = ensure_cron_job-calls client spec s3 in
      elim (bind_failed (ensure_config_map client spec) _ s e failed) [
        | inl (bad, at1) ↦
            inl (ensure_config_map_failed s e bad, ap (λ (m : Machine W). m.calls) at1 ∙ c1)
        | inr (_, _, failed1, at1) ↦
            elim (bind_failed (ensure_claim client ops spec) _ s1 e failed1) [
              | inl (bad, at2) ↦
                  let (on, reason) = ensure_claim_failed s1 e bad in
                  inr (
                    inl (
                      on,
                      reason,
                      ap (λ (m : Machine W). m.calls) (at1 ∙ at2) ∙ ground (arith, c1, c2),
                    ))
              | inr (_, _, failed2, at2) ↦
                  elim (bind_failed (ensure_volume_holder client spec) _ s2 e failed2) [
                    | inl (bad, at3) ↦ inr (
                        inr (
                          inl (
                            ensure_volume_holder_failed s2 e bad,
                            (
                              new,
                              held,
                              ap (λ (m : Machine W). m.calls) (at1 ∙ at2 ∙ at3)
                                  ∙ ground (arith, c1, c2, c3),
                            ),
                          )))
                    | inr (_, _, failed3, at3) ↦ inr (
                        inr (
                          inr (
                            ensure_cron_job_failed s3 e failed3,
                            (
                              new,
                              held,
                              ap (λ (m : Machine W). m.calls) (at1 ∙ at2 ∙ at3)
                                  ∙ ground (arith, c1, c2, c3, c4),
                            ),
                          )))
                  ]
            ]
      ]
