-- ===== src/Status/Manifest.antt =====
-- controllers/manifestwork: the status of the manifest works of the clusters that run their own
-- control plane, in the status of their AuthRealms.

use idp_mgmt_operator.Base.{Bool, true, false, Option, none, some, if◌then◌else◌}
use idp_mgmt_operator.Api.Action.{
  Action, CtrlResult, done, pure, fail, read, or_not_found, for_each, unless_requeue, ◌>>=◌, ◌>>◌,
}
use idp_mgmt_operator.Api.Meta.{ObjectKey, is_deleting}
use idp_mgmt_operator.Api.Identity.{AuthRealm, ClusterOAuth, ClusterStatus}
use idp_mgmt_operator.Api.Objects.{ManagedCluster}
use idp_mgmt_operator.Api.Client.{Env, in_namespace}
use idp_mgmt_operator.Api.Work.{Hub, ManifestWork}
use idp_mgmt_operator.Helpers.Status.{modify_at}
use idp_mgmt_operator.Helpers.Position.{
  strategy_not_found, cluster_not_found, Position, no_strategy, no_cluster, at, cluster_position,
  modify_clusters, no_work,
}
use idp_mgmt_operator.Helpers.Lookup.{is_hosted_cluster}
use idp_mgmt_operator.OAuth.Report.{auth_realm_key}

-- The assignments to the entry of a cluster, by whether the work is being deleted.
unfoldable pub set_manifest_work : ManifestWork → Bool → ClusterStatus → ClusterStatus
set_manifest_work work true c = record c { manifest_work = no_work }
set_manifest_work work false c = record c {
  manifest_work = record {
    name = work.meta.name;
    conditions = work.conditions;
    resource_status = work.resource_status;
  };
}

module _ {W : Type 0} (env : Env W) where
  -- `updateAuthRealmStatusManifestWorkConditions`, from the indexes on
  unfoldable pub update_work_at :
      Position → AuthRealm → ClusterOAuth → ManifestWork → Bool → Action W (Unit {0})
  update_work_at no_strategy auth_realm cluster_oauth work delete =
      fail (strategy_not_found cluster_oauth)
  update_work_at (no_cluster i) auth_realm cluster_oauth work delete =
      fail (cluster_not_found cluster_oauth)
  update_work_at (at i j) auth_realm cluster_oauth work delete =
      env.auth_realms.patch_status auth_realm (record auth_realm {
        strategies =
            modify_clusters i (modify_at j (set_manifest_work work delete)) auth_realm.strategies;
      })
      >> pure tt

  unfoldable pub update_authrealm_status_manifest_work_conditions :
      AuthRealm → ClusterOAuth → ManifestWork → Bool → Action W (Unit {0})
  update_authrealm_status_manifest_work_conditions auth_realm cluster_oauth work delete =
      update_work_at
        (cluster_position auth_realm.strategies cluster_oauth.strategy_reference.name
          cluster_oauth.meta.namespace)
        auth_realm cluster_oauth work delete

  unfoldable pub update_unless_hosted :
      AuthRealm → ClusterOAuth → ManifestWork → Bool → ManagedCluster → Action W (Unit {0})
  update_unless_hosted auth_realm cluster_oauth work delete mc =
      if is_hosted_cluster mc
      then pure tt
      else update_authrealm_status_manifest_work_conditions auth_realm cluster_oauth work delete

  -- The body of the loop
  unfoldable pub process_cluster_oauth : ManifestWork → Bool → ClusterOAuth → Action W (Unit {0})
  process_cluster_oauth work delete cluster_oauth =
      if is_deleting cluster_oauth.meta then pure tt else (do
        auth_realm ← read (env.auth_realms.get (auth_realm_key cluster_oauth))
        mc ← read (
            env.managed_clusters.get
              (record { name = cluster_oauth.meta.namespace; namespace = "" }))
        update_unless_hosted auth_realm cluster_oauth work delete mc)

  -- `processManifestWorkhUpdate`
  unfoldable pub process_manifest_work_update : ManifestWork → Bool → Action W CtrlResult
  process_manifest_work_update work delete = do
    cluster_oauths ← read (env.cluster_oauths.list (in_namespace work.meta.namespace))
    for_each cluster_oauths (process_cluster_oauth work delete)
    pure done

  unfoldable pub reconcile_found : Option ManifestWork → Action W CtrlResult
  reconcile_found none = pure done
  reconcile_found (some work) =
      unless_requeue (process_manifest_work_update work (is_deleting work.meta)) (pure done)

  -- `Reconcile`
  unfoldable pub reconcile : Hub W → ObjectKey → Action W CtrlResult
  reconcile hub req = read (λ w. or_not_found (hub.manifest_works.get req w)) >>= reconcile_found
