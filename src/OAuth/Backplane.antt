-- ===== src/OAuth/Backplane.antt =====
-- controllers/clusteroauth/backplane.go: the manager of a cluster that runs its own control plane.
-- Its OAuth is read through a managed cluster view and written through manifest works.
use Prim.Native.String.{◌++◌}
use mathlib.Core.List as lists
use idp_mgmt_operator.Base.{
  String, Bool, true, false, ◌&&◌, Option, none, some, List, [], ◌∷◌, ◌==◌, any, if◌then◌else◌,
}
use idp_mgmt_operator.Api.Action.{
  Action, Result, ok, err, panic, Error, errorf, is_not_found, Attempt, got, failed, attempt,
  CtrlResult, done, pure, fail, read, lift, or_not_found, non_nil, ◌>>=◌, ◌>>◌,
}
use idp_mgmt_operator.Api.Meta.{
  ObjectMeta, ObjectKey, ConditionStatus, condition_true, condition_false, key_of, new_meta,
  is_deleting, lookup, value_or_empty,
}
use idp_mgmt_operator.Api.Identity.{ClusterOAuth, IdentityProvider}
use idp_mgmt_operator.Api.Client.{Env, in_namespace}
use idp_mgmt_operator.Api.Work.{Hub, ConfigMap, ManifestWork, ManagedClusterView}
use idp_mgmt_operator.Helpers.Names.{
  manifest_work_oauth_name, manifest_work_original_oauth_name, managed_cluster_view_oauth_name,
  config_map_original_oauth_name,
}
use idp_mgmt_operator.OAuth.Aggregate.{
  secret_for, is_last_deleting, original_key, aggregate_cluster_oauths, get_original_oauth,
  delete_original_oauth, generate_aggregated_role,
}
use idp_mgmt_operator.OAuth.Report.{report_failed_push}

-- `ctrl.Result{RequeueAfter: 10 * time.Second}`
abbrev pub in_10s : CtrlResult
in_10s = record { requeue = false; requeue_after = 10 }

abbrev pub view_key : String → ObjectKey
view_key namespace = record { name = managed_cluster_view_oauth_name; namespace = namespace }

abbrev pub original_work_key : String → ObjectKey
original_work_key namespace = record {
  name = manifest_work_original_oauth_name;
  namespace = namespace;
}

abbrev pub posthook_annotation : String
posthook_annotation =
    "managedcluster-import-controller.open-cluster-management.io/posthook-graceperiod"

abbrev pub work_meta : String → String → ObjectMeta
work_meta name namespace = record (new_meta name namespace) {
  annotations = (posthook_annotation, "60") ∷ [];
}

abbrev pub has_status_true : ConditionStatus → Bool
has_status_true condition_true = true
has_status_true condition_false = false
has_status_true ConditionStatus.condition_unknown = false

module _ {W : Type 0} (hub : Hub W) where
  abbrev pub original_config_map : ManagedClusterView → String → String → ConfigMap
  original_config_map view yaml namespace = record {
    meta = new_meta config_map_original_oauth_name namespace;
    contents = ("json", view.result) ∷ ("yaml", yaml) ∷ [];
  }

  -- `Delete`, where `IsNotFound` is no error
  unfoldable pub ignore_not_found : Result (Unit {0}) → Result (Unit {0})
  ignore_not_found (ok u) = ok u
  ignore_not_found (err e) = if is_not_found e then ok tt else err e
  ignore_not_found panic = panic

  unfoldable pub delete_ignoring_not_found :
      {A : Type 0} → (A → Action W (Unit {0})) → A → Action W (Unit {0})
  delete_ignoring_not_found delete x w = let (r, w') = delete x w in (ignore_not_found r, w')

  -- `saveManagedClusterViewForOAuthResult`, once the view has been got
  unfoldable pub save_view_result : ClusterOAuth → ManagedClusterView → Action W CtrlResult
  save_view_result cluster_oauth view = if view.result == "" then pure in_10s else (do
    b ← lift (hub.json_to_yaml view.result)
    created ← hub.config_maps.create (original_config_map view b cluster_oauth.meta.namespace)
    deleted ← delete_ignoring_not_found hub.managed_cluster_views.delete view
    pure done)

  -- `saveManagedClusterViewForOAuthResult`
  unfoldable pub save_managed_cluster_view_for_oauth_result : ClusterOAuth → Action W CtrlResult
  save_managed_cluster_view_for_oauth_result cluster_oauth =
      read (hub.managed_cluster_views.get (view_key cluster_oauth.meta.namespace))
      >>= save_view_result cluster_oauth

  -- `Save`, after the look for the config map: any error of it counts as its absence
  unfoldable pub save_unless_saved : ClusterOAuth → Attempt ConfigMap → Action W CtrlResult
  save_unless_saved cluster_oauth (got cm) = pure done
  save_unless_saved cluster_oauth (failed e) =
      hub.apply_custom_resource "managedclusterview/managed-cluster-view-oauth.yaml"
        managed_cluster_view_oauth_name cluster_oauth.meta.namespace
      >> save_managed_cluster_view_for_oauth_result cluster_oauth

  -- `Save`
  unfoldable pub save : ClusterOAuth → Action W CtrlResult
  save cluster_oauth =
      attempt (read (hub.config_maps.get (original_key cluster_oauth.meta.namespace)))
      >>= save_unless_saved cluster_oauth

  unfoldable pub write_work : ManifestWork → Option ManifestWork → Action W (Unit {0})
  write_work work none = hub.manifest_works.create work >> pure tt
  write_work work (some old) =
      hub.manifest_works.update (record old { manifests = work.manifests }) >> pure tt

  -- `CreateOrUpdateManifestWork`
  unfoldable pub create_or_update_manifest_work : ManifestWork → Action W (Unit {0})
  create_or_update_manifest_work manifestwork =
      read (λ w. or_not_found (hub.manifest_works.get (key_of manifestwork.meta) w))
      >>= write_work manifestwork

  abbrev pub work_with : String → String → List String → ManifestWork
  work_with name namespace manifests = record {
    meta = work_meta name namespace;
    propagation_policy = hub.orphan;
    manifests = manifests;
    conditions = [];
    resource_status = "";
  }

  -- `restoreOriginalOAuth`
  unfoldable pub restore_original_oauth : ClusterOAuth → Action W (Unit {0})
  restore_original_oauth cluster_oauth = do
    original_oauth ← get_original_oauth hub cluster_oauth
    json_data ← lift (hub.yaml_to_json (value_or_empty (lookup "json" original_oauth.contents)))
    aggregated_role ← generate_aggregated_role hub
    create_or_update_manifest_work (
        work_with manifest_work_original_oauth_name cluster_oauth.meta.namespace
          (json_data ∷ aggregated_role ∷ []))

  -- The loop over the conditions of the manifest work.
  unfoldable pub is_applied : ManifestWork → Bool
  is_applied work =
      any (λ c. c.type == hub.manifest_applied && has_status_true c.status) work.conditions

  abbrev pub not_yet_applied : Error
  not_yet_applied =
      errorf ("manifestwork " ++ (manifest_work_original_oauth_name ++ " not yet Applied"))

  -- `checkManifestWorkOriginalOAuthApplied`
  unfoldable pub check_manifest_work_original_oauth_applied : String → Action W (Unit {0})
  check_manifest_work_original_oauth_applied namespace =
      read (hub.manifest_works.get (original_work_key namespace)) >>= λ manifest_work.
      if is_applied manifest_work then pure tt else fail not_yet_applied

  unfoldable pub delete_work : Option ManifestWork → Action W (Unit {0})
  delete_work none = pure tt
  delete_work (some work) =
      if is_deleting work.meta
      then pure tt
      else delete_ignoring_not_found hub.manifest_works.delete work

  -- `deleteManifestWork`
  unfoldable pub delete_manifest_work : String → String → Action W (Unit {0})
  delete_manifest_work name namespace =
      read (λ w.
        or_not_found (hub.manifest_works.get (record { name = name; namespace = namespace }) w))
      >>= delete_work

  -- What follows the restoration in `Unmanage`.
  unfoldable pub after_restore : ClusterOAuth → Attempt (Unit {0}) → Action W (Unit {0})
  after_restore cluster_oauth (got u) =
      check_manifest_work_original_oauth_applied cluster_oauth.meta.namespace
      >> delete_original_oauth hub cluster_oauth.meta.namespace
  after_restore cluster_oauth (failed e) = if is_not_found e then pure tt else fail e

  -- `Unmanage` of the last ClusterOAuth of a cluster
  unfoldable pub unmanage_last : ClusterOAuth → Action W CtrlResult
  unmanage_last cluster_oauth = do
    delete_manifest_work manifest_work_oauth_name cluster_oauth.meta.namespace
    restored ← attempt (restore_original_oauth cluster_oauth)
    after_restore cluster_oauth restored
    delete_manifest_work manifest_work_original_oauth_name cluster_oauth.meta.namespace
    pure done

module _ {W : Type 0} (env : Env W) (hub : Hub W) where
  -- The manifests of the secrets of one ClusterOAuth: one for each of its providers.
  unfoldable pub secrets_of : ClusterOAuth → List IdentityProvider → Action W (List String)
  secrets_of c [] = pure []
  secrets_of c (idp ∷ idps) = do
    secret ← read (env.secrets.get (key_of c.meta))
    data_ ← lift (hub.marshal_secret (secret_for "openshift-config" c.meta.namespace secret))
    rest ← secrets_of c idps
    pure (data_ ∷ rest)

  unfoldable pub secret_manifests : List ClusterOAuth → Action W (List String)
  secret_manifests [] = pure []
  secret_manifests (c ∷ cs) = if is_deleting c.meta then secret_manifests cs else (do
    idps ← lift (non_nil c.oauth)
    manifests ← secrets_of c idps
    rest ← secret_manifests cs
    pure (lists.◌++◌ manifests rest))

  -- `Push`
  unfoldable pub push : ClusterOAuth → Action W (Unit {0})
  push cluster_oauth = do
    aggregated_role ← generate_aggregated_role hub
    cluster_oauths ← read (env.cluster_oauths.list (in_namespace cluster_oauth.meta.namespace))
    oauth ← lift (aggregate_cluster_oauths cluster_oauths)
    manifests ← secret_manifests cluster_oauths
    data_ ← lift (hub.marshal_oauth oauth)
    create_or_update_manifest_work hub (
        work_with hub manifest_work_oauth_name cluster_oauth.meta.namespace
          (aggregated_role ∷ lists.◌++◌ manifests (data_ ∷ [])))

  -- `Unmanage`
  unfoldable pub unmanage : ClusterOAuth → Action W CtrlResult
  unmanage cluster_oauth =
      read (env.cluster_oauths.list (in_namespace cluster_oauth.meta.namespace))
      >>= λ cluster_oauths.
          if is_last_deleting cluster_oauths
          then unmanage_last hub cluster_oauth
          else (attempt (push cluster_oauth)
              >>= report_failed_push env hub "CreateManifestWorkFailed"
                  " failed to create ManifestWork for cluster " cluster_oauth)
