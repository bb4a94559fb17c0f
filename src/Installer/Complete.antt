-- ===== src/Installer/Complete.antt =====
-- What is left after the installer has removed the operator.
use idp_mgmt_operator.Base.{
  String, true, Bool-cases, Option, none, some, List, [], ◌∷◌, ◌≡◌, ap, ◌⊎◌, inl, inr, All, arith,
}
use idp_mgmt_operator.Api.Action.{
  Result, ok, err, panic, or_not_found, read, lift, for_each, ◌>>=◌, >>=-eq-ok,
}
use idp_mgmt_operator.Api.Meta.{ObjectKey}
use idp_mgmt_operator.Api.Objects.{Bare}
use idp_mgmt_operator.Installer.Targets.{
  deployment, role_binding, cluster_role_binding, service_account, cluster_role, role, api_service,
  service, validating_webhook_configuration, Target, Pod, Cluster, first_image, is_coverage,
}
use idp_mgmt_operator.Installer.Remove.{
  target, operator_targets, webhook_targets, delete_found, delete_target, remove_webhook,
  process_idp_config_deletion,
}

-- The objects that the installer has deployed, for the operator and for the webhook.
abbrev pub operator_objects : String → List Target
operator_objects namespace =
    target deployment "idp-mgmt-operator-manager" namespace
    ∷ target role_binding "idp-mgmt-operator-leader-election-rolebinding" namespace
    ∷ target cluster_role_binding "idp-mgmt-operator-manager-rolebinding" namespace
    ∷ target service_account "idp-mgmt-operator-manager" namespace
    ∷ target cluster_role "idp-mgmt-operator-manager-role" ""
    ∷ target role "leader-election-operator-role" namespace
    ∷ []

abbrev pub webhook_objects : String → List Target
webhook_objects namespace =
    target deployment "idp-mgmt-webhook-service" namespace
    ∷ target api_service "v1alpha1.admission.identityconfig.identitatem.io" ""
    ∷ target cluster_role_binding "idp-mgmt-webhook-service" ""
    ∷ target cluster_role "idp-mgmt-webhook-service" ""
    ∷ target service_account "idp-mgmt-webhook-service" namespace
    ∷ target service "idp-mgmt-webhook-service" namespace
    ∷ target validating_webhook_configuration "idp-mgmt-webhook-service" namespace
    ∷ []

module _ {W : Type 0} (cluster : Cluster W)
    -- a target goes if it is not there, or if its deletion has been accepted; a deletion does not
    -- change that of another
    (IsGoing : W → Target → Type 0)
    (absent_goes : (t : Target) (w : W)
      → or_not_found ((cluster.objects t.kind).get t.key w) ≡ ok none
      → IsGoing w t)
    (deleted_goes : (t : Target) (o : Bare) (w w' : W)
      → (cluster.objects t.kind).get t.key w ≡ ok o
      → (cluster.objects t.kind).delete o w ≡ (ok tt, w')
      → IsGoing w' t)
    (going_stays : (t t' : Target) (o : Bare) (w w' : W)
      → (cluster.objects t.kind).delete o w ≡ (ok tt, w')
      → IsGoing w t'
      → IsGoing w' t') where
  found_is_got : (r : Result Bare) {o : Bare} → or_not_found r ≡ ok (some o) → r ≡ ok o
  found_is_got (ok o) h = ground arith
  found_is_got (err e) h = absurd (ground arith)
  found_is_got panic h = absurd (ground arith)

  after_found :
      (t : Target) (found : Option Bare) (w : W) {w' : W}
      → or_not_found ((cluster.objects t.kind).get t.key w) ≡ ok found
      → delete_found cluster t.kind found w ≡ (ok tt, w')
      → IsGoing w' t
  unfolding delete_found
  after_found t none w {w'} e h = let same : w ≡ w' = cc in rw (← same) (absent_goes t w e)
  after_found t (some o) w {w'} e h =
      deleted_goes t o w w' (found_is_got ((cluster.objects t.kind).get t.key w) e) h

  stays_by_found :
      (t t' : Target) (found : Option Bare) (w : W) {w' : W}
      → delete_found cluster t.kind found w ≡ (ok tt, w')
      → IsGoing w t'
      → IsGoing w' t'
  unfolding delete_found
  stays_by_found t t' none w {w'} h k = let same : w ≡ w' = cc in rw (← same) k
  stays_by_found t t' (some o) w {w'} h k = going_stays t t' o w w' h k

  -- One target after another: each goes at the end, and what went still goes.
  target_stays :
      (t t' : Target) (w : W) {w' : W}
      → delete_target cluster t w ≡ (ok tt, w')
      → IsGoing w t'
      → IsGoing w' t'
  unfolding delete_target
  target_stays t t' w h k =
      let get : W → Result (Option Bare) =
        λ w. or_not_found ((cluster.objects t.kind).get t.key w) in
      let (found, v, first, rest) = >>=-eq-ok (read get) (delete_found cluster t.kind) w h in
      let same : w ≡ v = ap (λ (p : Result (Option Bare) × W). p.1) first in
      stays_by_found t t' found v rest (rw (← same) k)

  target_removed :
      (t : Target) (w : W) {w' : W} → delete_target cluster t w ≡ (ok tt, w') → IsGoing w' t
  unfolding delete_target
  target_removed t w h =
      let get : W → Result (Option Bare) =
        λ w. or_not_found ((cluster.objects t.kind).get t.key w) in
      let (found, v, first, rest) = >>=-eq-ok (read get) (delete_found cluster t.kind) w h in
      let same : w ≡ v = ap (λ (p : Result (Option Bare) × W). p.1) first in
      let e : get w ≡ ok found = ap (λ (p : Result (Option Bare) × W). p.0) first in
      after_found t found v (rw same at e) rest

  targets_stay :
      (ts : List Target) (t' : Target) (w : W) {w' : W}
      → for_each ts (delete_target cluster) w ≡ (ok tt, w')
      → IsGoing w t'
      → IsGoing w' t'
  targets_stay [] t' w {w'} h k = let same : w ≡ w' = cc in rw (← same) k
  targets_stay (t ∷ ts) t' w h k =
      let (u, v, first, rest) =
        >>=-eq-ok (delete_target cluster t) (λ _. for_each ts (delete_target cluster)) w h in
      targets_stay ts t' v rest (target_stays t t' w first k)

  targets_removed :
      (ts : List Target) (w : W) {w' : W}
      → for_each ts (delete_target cluster) w ≡ (ok tt, w')
      → All (IsGoing w') ts
  targets_removed [] w h = tt
  targets_removed (t ∷ ts) w h =
      let (u, v, first, rest) =
        >>=-eq-ok (delete_target cluster t) (λ _. for_each ts (delete_target cluster)) w h in
      (targets_stay ts t v rest (target_removed t w first), targets_removed ts v rest)

  they_stay :
      (ts ts' : List Target) (w : W) {w' : W}
      → for_each ts (delete_target cluster) w ≡ (ok tt, w')
      → All (IsGoing w) ts'
      → All (IsGoing w') ts'
  they_stay ts [] w h ks = tt
  they_stay ts (t ∷ ts') w h (k, ks) = (targets_stay ts t w h k, they_stay ts ts' w h ks)

  webhook_removed :
      (namespace image : String) (w : W) {w' : W}
      → remove_webhook cluster namespace image w ≡ (ok tt, w')
      → All (IsGoing w) (operator_targets namespace)
      → All (IsGoing w') (operator_targets namespace)
        × ((is_coverage image ≡ true) ⊎ All (IsGoing w') (webhook_targets namespace))
  unfolding remove_webhook
  webhook_removed namespace image w {w'} h ks = elim (Bool-cases (is_coverage image)) [
    | inl e ↦
        let h' = rw e at h in
        let same : w ≡ w' = ap (λ (p : Result (Unit {0}) × W). p.1) h' in (rw (← same) ks, inl e)
    | inr e ↦
        let h' = rw e at h in
        (
          they_stay (webhook_targets namespace) (operator_targets namespace) w h' ks,
          inr (targets_removed (webhook_targets namespace) w h'),
        )
  ]

  -- If the deletion of an IDPConfig is processed without an error, then at its end each of the six
  -- objects of the operator goes. So does each of the seven of the webhook, unless the first image of
  -- the installer's pod, as it was got once the deletions of the six were done, is one for coverage.
  -- An object goes if it is not there or its deletion has been accepted, and deletions of others do
  -- not change that.
  pub removal_is_complete :
      (pod_key : ObjectKey) (w : W) {w' : W}
      → process_idp_config_deletion cluster pod_key w ≡ (ok tt, w')
      → All (IsGoing w') (operator_objects pod_key.namespace)
        × ((v : W) × (pod : Pod) × (image : String) × (for_each
                (operator_objects pod_key.namespace)
                (delete_target cluster)
                w
              ≡ (ok tt, v))
            × (cluster.get_pod pod_key v ≡ ok pod)
            × (first_image pod.images ≡ ok image)
            × ((is_coverage image ≡ true) ⊎ All (IsGoing w') (webhook_objects pod_key.namespace)))
  unfolding process_idp_config_deletion
  removal_is_complete pod_key w h =
      let ns = pod_key.namespace in
      let then_webhook =
        λ (pod : Pod). lift (first_image pod.images) >>= remove_webhook cluster ns in
      let (u, v, first, rest) =
        >>=-eq-ok (for_each (operator_targets ns) (delete_target cluster))
          (λ _. read (cluster.get_pod pod_key) >>= then_webhook) w h in
      let (pod, v₁, second, rest₁) =
        >>=-eq-ok (read (cluster.get_pod pod_key)) then_webhook v rest in
      let (image, v₂, third, last) =
        >>=-eq-ok (lift (first_image pod.images)) (remove_webhook cluster ns) v₁ rest₁ in
      let same : v ≡ v₁ = ap (λ (p : Result Pod × W). p.1) second in
      let same' : v₁ ≡ v₂ = ap (λ (p : Result String × W). p.1) third in
      let (gone, webhook) =
        webhook_removed ns image v₂ last
          (rw (← same', ← same) (targets_removed (operator_targets ns) w first)) in
      let got_pod : cluster.get_pod pod_key v ≡ ok pod = ap (λ (p : Result Pod × W). p.0) second in
      let got_image : first_image pod.images ≡ ok image =
        ap (λ (p : Result String × W). p.0) third in
      (gone, (v, pod, image, first, got_pod, got_image, webhook))
