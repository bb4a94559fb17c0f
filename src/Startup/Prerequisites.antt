-- ===== src/Startup/Prerequisites.antt =====
-- What the installer's cluster has when the installer runs.
use idp_mgmt_operator.Base.{String, false, Bool-cases, ◌==◌, ◌≡◌, ◌≢◌, ap, ◌⊎◌, inl, inr, arith}
use idp_mgmt_operator.Api.Action.{Action, Result, ok, panic, read, lift, ◌>>=◌, ◌>>◌, >>=-eq-ok}
use idp_mgmt_operator.Api.Meta.{ObjectKey}
use idp_mgmt_operator.Installer.Targets.{Cluster}
use idp_mgmt_operator.Installer.Reconcile.{
  either_of, is_rhacm, check_prerequisite, crd_files, pod_key_of, setup,
}
use idp_mgmt_operator.Installer.Prerequisite.{HasSome, prerequisite_iff}
use idp_mgmt_operator.Startup.Manager.{Manager}
use idp_mgmt_operator.Startup.Commands.{Flags, options_of, check_and_start, run_installer}

pod_key_is_given :
    (name namespace : String) {key : ObjectKey}
    → pod_key_of name namespace ≡ ok key
    → (name == "" ≡ false)
      × (namespace == "" ≡ false)
      × (key ≡ record { name = name; namespace = namespace })
unfolding pod_key_of
pod_key_is_given name namespace h = elim (Bool-cases (name == "")) [
  | inl e ↦ let h' = rw e at h in absurd (ground arith)
  | inr e ↦ elim (Bool-cases (namespace == "")) [
    | inl e' ↦ let h' = rw (e, e') at h in absurd (ground arith)
    | inr e' ↦ let h' = rw (e, e') at h in (e, e', ground arith)
  ]
]

module _ {W : Type 0} (cluster : Cluster W) where
  met_without_panic :
      (w : W) → check_prerequisite cluster w ≡ ok tt → cluster.multicluster_hubs w ≢ panic
  unfolding check_prerequisite either_of is_rhacm
  met_without_panic w h e = let h' = rw e at h in absurd (ground arith)

  abbrev pub HasProduct : W → Type 0
  HasProduct w =
      HasSome (cluster.multicluster_hubs w)
      ⊎ HasSome (cluster.multicluster_engines "v1" w)
      ⊎ HasSome (cluster.multicluster_engines "v1alpha1" w)

  -- The key of the installer's pod, from the environment.
  abbrev pub pod_key : ObjectKey
  pod_key = record { name = cluster.getenv "POD_NAME"; namespace = cluster.getenv "POD_NAMESPACE" }

  setup-eq-ok :
      (w : W) {key : ObjectKey} {w' : W}
      → setup cluster w ≡ (ok key, w')
      → HasProduct w
        × (cluster.getenv "POD_NAME" == "" ≡ false)
        × (cluster.getenv "POD_NAMESPACE" == "" ≡ false)
        × (key ≡ pod_key)
  unfolding setup
  setup-eq-ok w h =
      let given = pod_key_of (cluster.getenv "POD_NAME") (cluster.getenv "POD_NAMESPACE") in
      let (u, v, first, rest) =
        >>=-eq-ok (read (check_prerequisite cluster))
          (λ _. lift cluster.add_to_scheme >> (cluster.apply_crds crd_files >> lift given)) w h in
      let (u₁, v₁, second, rest₁) =
        >>=-eq-ok (lift cluster.add_to_scheme) (λ _. cluster.apply_crds crd_files >> lift given) v
          rest in
      let (u₂, v₂, third, last) =
        >>=-eq-ok (cluster.apply_crds crd_files) (λ _. lift given) v₁ rest₁ in
      let met : check_prerequisite cluster w ≡ ok tt =
        ap (λ (p : Result (Unit {0}) × W). p.0) first in
      let (named, spaced, same) =
        pod_key_is_given _ _ (ap (λ (p : Result ObjectKey × W). p.0) last) in
      ((prerequisite_iff cluster w (met_without_panic w met)).0 met, named, spaced, same)

  -- If the run of the installer ends without an error, then the cluster had a MultiClusterHub or a
  -- MultiClusterEngine of one of the two versions after the manager was made, the names of the pod
  -- and of its namespace are given by the environment, and the reconciler of IDPConfigs was
  -- registered, with these names.
  pub installer_needs_product :
      (mgr : Manager W) (complete : ObjectKey → Action W (Unit {0})) (o : Flags) (w : W) {w' : W}
      → run_installer mgr cluster complete o w ≡ (ok tt, w')
      → (v : W) × (mgr.new_manager (options_of o "installer.identitatem.io") w ≡ (ok tt, v))
        × HasProduct v
        × (cluster.getenv "POD_NAME" == "" ≡ false)
        × (cluster.getenv "POD_NAMESPACE" == "" ≡ false)
        × ((v₁ : W) × (v₂ : W) × (complete pod_key v₁ ≡ (ok tt, v₂)))
  unfolding run_installer
  installer_needs_product mgr complete o w h =
      let (u, v, made, rest) =
        >>=-eq-ok (mgr.new_manager (options_of o "installer.identitatem.io"))
          (λ _. (setup cluster >>= complete) >> check_and_start mgr) w h in
      let (u₁, v₂, added, last) =
        >>=-eq-ok (setup cluster >>= complete) (λ _. check_and_start mgr) v rest in
      let (key, v₁, set_up, registered) = >>=-eq-ok (setup cluster) complete v added in
      let (product, named, spaced, same) = setup-eq-ok v set_up in
      (v, made, product, named, spaced, (v₁, v₂, rw same at registered))
