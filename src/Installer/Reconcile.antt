-- ===== src/Installer/Reconcile.antt =====
-- The reconciler of an IDPConfig, and the prerequisites and the set-up of the installer.
use Prim.Native.String.{◌++◌}
use idp_mgmt_operator.Base.{
  ℕ, zero, suc, String, Bool, ◌||◌, ◌==◌, Option, none, some, List, [], ◌∷◌, if◌then◌else◌,
}
use idp_mgmt_operator.Api.Action.{
  Action, Result, ok, err, panic, Error, errorf, CtrlResult, done, pure, read, lift, or_not_found,
  ◌>>=◌, ◌>>◌,
}
use idp_mgmt_operator.Api.Meta.{ObjectKey, is_deleting}
use idp_mgmt_operator.Api.Objects.{Bare}
use idp_mgmt_operator.Helpers.Names.{authrealm_finalizer}
use idp_mgmt_operator.Installer.Targets.{Cluster}
use idp_mgmt_operator.Installer.Deploy.{process_idp_config_creation}
use idp_mgmt_operator.Installer.Remove.{process_idp_config_deletion}

-- A list that has been got and is not empty.
unfoldable pub has_items : Result ℕ → Bool
has_items (ok zero) = Bool.false
has_items (ok (suc n)) = Bool.true
has_items (err e) = Bool.false
has_items panic = Bool.false

abbrev pub no_rhacm : Error
no_rhacm = errorf "the product Red Hat Advanced Cluster Management is not installed on this cluster"

abbrev pub no_mce : Error
no_mce = errorf "the product Multicluster Engine is not installed on this cluster"

-- `isRHACM`, of the list of hubs: it is true, or there is an error
unfoldable pub is_rhacm : Result ℕ → Result (Unit {0})
is_rhacm (ok zero) = err no_rhacm
is_rhacm (ok (suc n)) = ok tt
is_rhacm (err e) = err e
is_rhacm panic = panic

-- `isMCE`, of the lists of both versions, where an error counts as an empty list
unfoldable pub is_mce : Result ℕ → Result ℕ → Result (Unit {0})
is_mce v1 v1alpha1 = if has_items v1 || has_items v1alpha1 then ok tt else err no_mce

abbrev pub unmet : Error → Error → Error
unmet rhacm mce = errorf (
    "neither Red Hat Advanced Cluster Management or Multicluster Engine installation has been "
    ++ ("detected, " ++ (rhacm.message ++ ("\n" ++ mce.message))))

unfoldable pub either_of : Result (Unit {0}) → Result (Unit {0}) → Result (Unit {0})
either_of (ok u) (ok v) = ok tt
either_of (ok u) (err e) = ok tt
either_of (ok u) panic = panic
either_of (err e) (ok v) = ok tt
either_of (err e) (err e') = err (unmet e e')
either_of (err e) panic = panic
either_of panic r = panic

abbrev pub crd_files : List String
crd_files =
    "crd/bases/identityconfig.identitatem.io_authrealms.yaml"
    ∷ "crd/bases/identityconfig.identitatem.io_idpconfigs.yaml"
    ∷ "crd/bases/identityconfig.identitatem.io_strategies.yaml" ∷ []

unfoldable pub pod_key_of : String → String → Result ObjectKey
pod_key_of name namespace =
    if name == "" || namespace == ""
    then err (errorf "POD_NAME or POD_NAMESPACE not set")
    else ok (record { name = name; namespace = namespace })

module _ {W : Type 0} (cluster : Cluster W) where
  -- `checkPreRequisite`
  unfoldable pub check_prerequisite : W → Result (Unit {0})
  check_prerequisite w =
      either_of (is_rhacm (cluster.multicluster_hubs w))
        (is_mce (cluster.multicluster_engines "v1" w) (cluster.multicluster_engines "v1alpha1" w))

  -- `SetupWithManager`, up to the registration: `podName` and `podNamespace` come back
  unfoldable pub setup : Action W ObjectKey
  setup = do
    read check_prerequisite
    lift cluster.add_to_scheme
    cluster.apply_crds crd_files
    lift (pod_key_of (cluster.getenv "POD_NAME") (cluster.getenv "POD_NAMESPACE"))

  unfoldable pub drop_finalizer : Bare → Action W CtrlResult
  drop_finalizer target = do
    updated ← cluster.idp_configs.update (record {
      meta = record (target.meta) {
        finalizers = cluster.remove_finalizer target.meta.finalizers authrealm_finalizer;
      };
    })
    pure done

  unfoldable pub reconcile_instance : ObjectKey → Bare → Action W CtrlResult
  reconcile_instance pod_key target =
      if is_deleting target.meta
      then process_idp_config_deletion cluster pod_key >> drop_finalizer target
      else (cluster.idp_configs.update (record {
        meta = record (target.meta) {
          finalizers = cluster.add_finalizer target.meta.finalizers authrealm_finalizer;
        };
      })
          >> (process_idp_config_creation cluster pod_key >> pure done))

  unfoldable pub reconcile_found : ObjectKey → Option Bare → Action W CtrlResult
  reconcile_found pod_key none = pure done
  reconcile_found pod_key (some target) = reconcile_instance pod_key target

  -- `Reconcile`
  unfoldable pub reconcile : ObjectKey → ObjectKey → Action W CtrlResult
  reconcile pod_key req =
      read (λ w. or_not_found (cluster.idp_configs.get req w)) >>= reconcile_found pod_key
