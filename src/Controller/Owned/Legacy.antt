-- ===== src/Controller/Owned/Legacy.antt =====
-- What becomes of the objects of the old names: deleteLegacyOwned and deleteIfController of
-- internal/controller/owned.go.
use karkive.Prelude.{
  String, ◌≡◌, refl, ◌⊎◌, inl, inr, Bool, true, false, ◌∷◌, ◌==◌, Bool-cases, sym, ◌∙◌, arith,
  eq_iff,
}
use karkive.Errors.{Error, Result, ok, err, Result-cases, err-ne-ok, is_not_found}
use karkive.Kube.Meta.{ObjectMeta}
use karkive.Resources.Names.{legacy_owned_name}
use karkive.Controller.Client.{Client, ObjectKey}
use karkive.Controller.Action.{
  Call, delete_config_map, delete_cron_job, Machine, raise, pure, try, resume,
}
use karkive.Controller.Owned.{delete_if_controller, delete_legacy_owned, ignore_not_found}

module _ {W : Type 0} (client : Client W) where
  -- From the first state to the second the object is dealt with: it is not there; or it is there, is
  -- not the owner's, and stays; or it is the owner's, and its deletion has been requested, which the
  -- API server has accepted, unless the object had gone by then.
  abbrev pub Removed :
      {A : Type 0}
      → ObjectMeta
      → (W → Result A)
      → (A → ObjectMeta)
      → Call
      → (W → Result (Unit {0}) × W)
      → Machine W
      → Machine W
      → Type 0
  Removed {A} owner get meta call delete s s' =
      ((e : Error) × (get s.world ≡ err e) × (is_not_found e ≡ true) × (s' ≡ s))
      ⊎ ((obj : A) × (get s.world ≡ ok obj)
          × (((client.is_controlled_by (meta obj) owner ≡ false) × (s' ≡ s))
              ⊎ ((client.is_controlled_by (meta obj) owner ≡ true)
                  × (((delete s.world).0 ≡ ok tt)
                      ⊎ ((e : Error) × ((delete s.world).0 ≡ err e) × (is_not_found e ≡ true)))
                  × (s' ≡ record { world = (delete s.world).1; calls = call ∷ s.calls }))))

  delete_if_controller-Removed :
      {A : Type 0} (owner : ObjectMeta) (get : W → Result A) (meta : A → ObjectMeta) (call : Call)
      (delete : W → Result (Unit {0}) × W) (s : Machine W) (b : Bool)
      → (delete_if_controller client owner get meta call delete s).0 ≡ ok b
      → Removed owner get meta call delete s
          (delete_if_controller client owner get meta call delete s).1
  unfolding delete_if_controller try ignore_not_found
  delete_if_controller-Removed owner get meta call delete s b done =
      let act = delete_if_controller client owner get meta call delete in
      let requested : Machine W = record { world = (delete s.world).1; calls = call ∷ s.calls } in
      elim (Result-cases (get s.world)) [
        | inr (e, missing) ↦ elim (Bool-cases (is_not_found e)) [
          | inl gone ↦ inl (e, missing, gone, rw (missing, resume) refl)
          | inr broken ↦
              let same : (act s).0 ≡ err e = rw (missing, resume) (rw broken refl) in
              absurd (err-ne-ok (sym same ∙ done))
        ]
        | inl (obj, found) ↦ elim (Bool-cases (client.is_controlled_by (meta obj) owner)) [
          | inr other ↦ inr (obj, found, inl (other, rw (found, resume) (rw other refl)))
          | inl own ↦ elim (Result-cases (delete s.world).0) [
            | inl (u, deleted) ↦
                let same : (act s).1 ≡ requested = ground (arith, found, own, deleted) in
                inr (obj, found, inr (own, inl deleted, same))
            | inr (e, failed) ↦ elim (Bool-cases (is_not_found e)) [
              | inl gone ↦
                  let same : (act s).1 ≡ requested = ground (arith, found, own, failed) in
                  inr (obj, found, inr (own, inr (e, failed, gone), same))
              | inr broken ↦
                  let same : (act s).0 ≡ err e = ground (arith, found, own, failed, broken) in
                  absurd (err-ne-ok (sym same ∙ done))
            ]
          ]
        ]
      ]

  -- The objects of the old name, if it is another one than the current name: first the ConfigMap, then
  -- the CronJob.
  abbrev pub LegacyRemoved : ObjectMeta → String → Machine W → Machine W → Type 0
  LegacyRemoved owner current s s' =
      let legacy = legacy_owned_name owner.name in
      let key : ObjectKey = record { namespace = owner.namespace; name = legacy } in
      ((legacy ≡ current) × (s' ≡ s))
      ⊎ ((between : Machine W) × Removed owner (client.get_config_map key) (λ cm. cm.meta)
            (delete_config_map legacy) (client.delete_config_map key) s between
          × Removed owner (client.get_cron_job key) (λ cj. cj.meta) (delete_cron_job legacy)
              (client.delete_cron_job key) between s')

  pub delete_legacy_owned-LegacyRemoved :
      (owner : ObjectMeta) (current : String) (s : Machine W)
      → (delete_legacy_owned client owner current s).0 ≡ ok tt
      → LegacyRemoved owner current s (delete_legacy_owned client owner current s).1
  unfolding delete_legacy_owned try pure raise
  delete_legacy_owned-LegacyRemoved owner current s done =
      let legacy = legacy_owned_name owner.name in
      let key : ObjectKey = record { namespace = owner.namespace; name = legacy } in
      let config =
        delete_if_controller client owner (client.get_config_map key) (λ cm. cm.meta)
          (delete_config_map legacy) (client.delete_config_map key) in
      let cron =
        delete_if_controller client owner (client.get_cron_job key) (λ cj. cj.meta)
          (delete_cron_job legacy) (client.delete_cron_job key) in
      elim (Bool-cases (legacy == current)) [
        | inl same ↦ inl (ground (arith, eq_iff legacy current, same), rw same refl)
        | inr other ↦ elim (Result-cases (config s).0) [
          | inr (e, failed) ↦
              let raised : (delete_legacy_owned client owner current s).0 ≡ err e =
                rw other (rw (failed, resume) refl) in
              absurd (err-ne-ok (sym raised ∙ done))
          | inl (b, first) ↦ elim (Result-cases (cron (config s).1).0) [
            | inr (e, failed) ↦
                let raised : (delete_legacy_owned client owner current s).0 ≡ err e =
                  rw other (rw (first, resume) (rw (failed, resume) refl)) in
                absurd (err-ne-ok (sym raised ∙ done))
            | inl (c, second) ↦
                let ended : (delete_legacy_owned client owner current s).1 ≡ (cron (config s).1).1 =
                  rw other (rw (first, resume) (rw (second, resume) refl)) in
                inr (
                  (config s).1,
                  delete_if_controller-Removed owner _ _ _ _ s b first,
                  rw ended (delete_if_controller-Removed owner _ _ _ _ (config s).1 c second),
                )
          ]
        ]
      ]
