-- ===== src/Status/Deployment.antt =====
-- controllers/hypershiftdeployment: the status of the hypershift deployments of hosted clusters, and
-- of their manifest works, in the status of their AuthRealms. A result that comes with an error is
-- not used by the caller, so the delay of two seconds beside each error has no trace here.

use idp_mgmt_operator.Base.{Bool, true, false, Option, none, some, if◌then◌else◌}
use idp_mgmt_operator.Api.Action.{
  Action, CtrlResult, done, pure, fail, read, or_not_found, for_each_unless_requeue, unless_requeue,
  ◌>>=◌, ◌>>◌,
}
use idp_mgmt_operator.Api.Meta.{ObjectKey, is_deleting}
use idp_mgmt_operator.Api.Identity.{AuthRealm, ClusterOAuth, ClusterStatus}
use idp_mgmt_operator.Api.Objects.{ManagedCluster}
use idp_mgmt_operator.Api.Client.{Env, in_namespace}
use idp_mgmt_operator.Api.Work.{Hub, ManifestWork, HypershiftDeployment}
use idp_mgmt_operator.Helpers.Status.{modify_at}
use idp_mgmt_operator.Helpers.Position.{
  strategy_not_found, cluster_not_found, Position, no_strategy, no_cluster, at, cluster_position,
  modify_clusters, no_work, no_deployment,
}
use idp_mgmt_operator.Helpers.Lookup.{is_hosted_cluster}
use idp_mgmt_operator.OAuth.Report.{auth_realm_key}

-- The assignments to the entry of a cluster where the deployment is being deleted, and where it is
-- not.
unfoldable pub clear_deployment : ClusterStatus → ClusterStatus
clear_deployment c = record c { hypershift_deployment = no_deployment; manifest_work = no_work }

unfoldable pub set_deployment : HypershiftDeployment → ManifestWork → ClusterStatus → ClusterStatus
set_deployment hd mw c = record c {
  hypershift_deployment = record {
    name = hd.meta.name;
    conditions = hd.conditions;
    phase = hd.phase;
  };
  manifest_work = record {
    name = mw.meta.name;
    conditions = mw.conditions;
    resource_status = mw.resource_status;
  };
}

module _ {W : Type 0} (env : Env W) (hub : Hub W) where
  -- The new entry of the cluster, by whether the deployment is being deleted.
  unfoldable pub new_status : HypershiftDeployment → Bool → Action W (ClusterStatus → ClusterStatus)
  new_status hd true = pure clear_deployment
  new_status hd false = do
    mw ←
        read (hub.manifest_works.get (record { name = hd.infra_id; namespace = hd.meta.namespace }))
    pure (set_deployment hd mw)

  -- `updateAuthRealmStatusHypershiftDeploymentConditions`, from the indexes on
  unfoldable pub update_deployment_at :
      Position → AuthRealm → ClusterOAuth → HypershiftDeployment → Bool → Action W CtrlResult
  update_deployment_at no_strategy auth_realm cluster_oauth hd delete =
      fail (strategy_not_found cluster_oauth)
  update_deployment_at (no_cluster i) auth_realm cluster_oauth hd delete =
      fail (cluster_not_found cluster_oauth)
  update_deployment_at (at i j) auth_realm cluster_oauth hd delete = new_status hd delete >>= λ f.
      env.auth_realms.patch_status auth_realm
        (record auth_realm { strategies = modify_clusters i (modify_at j f) auth_realm.strategies })
      >> pure done

  unfoldable pub update_authrealm_status_hypershift_deployment_conditions :
      AuthRealm → ClusterOAuth → HypershiftDeployment → Bool → Action W CtrlResult
  update_authrealm_status_hypershift_deployment_conditions auth_realm cluster_oauth hd delete =
      update_deployment_at
        (cluster_position auth_realm.strategies cluster_oauth.strategy_reference.name
          cluster_oauth.meta.namespace)
        auth_realm cluster_oauth hd delete

  unfoldable pub update_if_hosted :
      AuthRealm → ClusterOAuth → HypershiftDeployment → Bool → ManagedCluster → Action W CtrlResult
  update_if_hosted auth_realm cluster_oauth hd delete mc =
      if is_hosted_cluster mc
      then update_authrealm_status_hypershift_deployment_conditions auth_realm cluster_oauth hd
          delete
      else pure done

  -- The body of the loop
  unfoldable pub process_cluster_oauth :
      HypershiftDeployment → Bool → ClusterOAuth → Action W CtrlResult
  process_cluster_oauth hd delete cluster_oauth =
      if is_deleting cluster_oauth.meta then pure done else (do
        auth_realm ← read (env.auth_realms.get (auth_realm_key cluster_oauth))
        mc ← read (
            env.managed_clusters.get
              (record { name = cluster_oauth.meta.namespace; namespace = "" }))
        update_if_hosted auth_realm cluster_oauth hd delete mc)

  -- `processHypershiftDeployment`
  unfoldable pub process_hypershift_deployment : HypershiftDeployment → Bool → Action W CtrlResult
  process_hypershift_deployment hd delete = do
    cluster_oauths ← read (env.cluster_oauths.list (in_namespace hd.infra_id))
    for_each_unless_requeue cluster_oauths (process_cluster_oauth hd delete)

  unfoldable pub reconcile_found : Option HypershiftDeployment → Action W CtrlResult
  reconcile_found none = pure done
  reconcile_found (some hd) =
      unless_requeue (process_hypershift_deployment hd (is_deleting hd.meta)) (pure done)

  -- `Reconcile`
  unfoldable pub reconcile : ObjectKey → Action W CtrlResult
  reconcile req =
      read (λ w. or_not_found (hub.hypershift_deployments.get req w)) >>= reconcile_found
