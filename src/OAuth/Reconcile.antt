-- ===== src/OAuth/Reconcile.antt =====
-- controllers/clusteroauth/clusteroauth_controller.go: the reconciler of a ClusterOAuth, over the
-- ClusterOAuth in memory.
use Prim.Native.String.{◌++◌}
use idp_mgmt_operator.Base.{String, Bool, Option, none, some, if◌then◌else◌, is_none, not}
use idp_mgmt_operator.Api.Action.{
  Action, errorf, Error, Attempt, got, failed, attempt, CtrlResult, done, pure, fail, crash, read,
  or_not_found, unless_requeue, ◌>>=◌, ◌>>◌,
}
use idp_mgmt_operator.Api.Object.{on_world, object, change, store, with_object}
use idp_mgmt_operator.Api.Meta.{
  Labels, ObjectKey, Condition, condition_true, condition_false, is_deleting, lookup,
}
use idp_mgmt_operator.Api.Identity.{ClusterOAuth, StrategyType, backplane, hypershift}
use idp_mgmt_operator.Api.Objects.{ManagedCluster}
use idp_mgmt_operator.Api.Client.{Env}
use idp_mgmt_operator.Api.Work.{Hub}
use idp_mgmt_operator.Helpers.Names.{authrealm_finalizer}
use idp_mgmt_operator.Helpers.Lookup.{is_hosted_cluster}
use idp_mgmt_operator.OAuth.Report.{set_conditions, delete_auth_realm_conditions}
use idp_mgmt_operator.OAuth.Backplane as backplane_mgr
use idp_mgmt_operator.OAuth.Hypershift as hypershift_mgr

abbrev pub dex_client_secret_label : String
dex_client_secret_label = "auth.identitatem.io/dex-client-secret"

-- The predicate on updates of secrets: the labels of the new secret
unfoldable pub secret_predicate : Labels → Bool
secret_predicate labels = not (is_none (lookup dex_client_secret_label labels))

module _ {W : Type 0} (env : Env W) (hub : Hub W) where
  abbrev pub unsupported : StrategyType → ClusterOAuth → Error
  unsupported type cluster_oauth = errorf (
      "unsupported strategy "
      ++ (env.strategy_type_text type ++ (" for cluster " ++ cluster_oauth.meta.namespace)))

  -- `Save` and `Push` of the manager that the strategy's type chooses
  unfoldable pub save_and_push : StrategyType → ClusterOAuth → Action W CtrlResult
  save_and_push hypershift cluster_oauth =
      unless_requeue (hypershift_mgr.save hub cluster_oauth)
        (hypershift_mgr.push env hub cluster_oauth >> pure done)
  save_and_push backplane cluster_oauth =
      unless_requeue (backplane_mgr.save hub cluster_oauth)
        (backplane_mgr.push env hub cluster_oauth >> pure done)
  save_and_push (StrategyType.other t) cluster_oauth =
      fail (unsupported (StrategyType.other t) cluster_oauth)

  -- `processClusterOAuth`, once the finalizer is written
  unfoldable pub process_finalized : ClusterOAuth → Action W CtrlResult
  process_finalized cluster_oauth = do
    strategy ← read (
        env.strategies.get (record {
          name = cluster_oauth.strategy_reference.name;
          namespace = cluster_oauth.strategy_reference.namespace;
        }))
    save_and_push strategy.type cluster_oauth

  -- `processClusterOAuth`
  unfoldable pub process_cluster_oauth : Action (W × ClusterOAuth) CtrlResult
  process_cluster_oauth = do
    change (λ c. record c {
      meta = record (c.meta) {
        finalizers = env.add_finalizer c.meta.finalizers authrealm_finalizer;
      };
    })
    store env.cluster_oauths.update
    cluster_oauth ← object
    on_world (process_finalized cluster_oauth)

  -- `Unmanage` of the manager that the cluster chooses
  unfoldable pub unmanage_on : ManagedCluster → ClusterOAuth → Action W CtrlResult
  unmanage_on mc cluster_oauth =
      if is_hosted_cluster mc
      then hypershift_mgr.unmanage env hub cluster_oauth
      else backplane_mgr.unmanage env hub cluster_oauth

  -- `deleteClusterOAuth`
  unfoldable pub delete_cluster_oauth : ClusterOAuth → Action W CtrlResult
  delete_cluster_oauth cluster_oauth = do
    delete_auth_realm_conditions env cluster_oauth
    mc ←
        read (
          env.managed_clusters.get (record { name = cluster_oauth.meta.namespace; namespace = "" }))
    unmanage_on mc cluster_oauth

  unfoldable pub drop_finalizer : ClusterOAuth → Action W CtrlResult
  drop_finalizer cluster_oauth = do
    updated ← env.cluster_oauths.update (record cluster_oauth {
      meta = record (cluster_oauth.meta) {
        finalizers = env.remove_finalizer cluster_oauth.meta.finalizers authrealm_finalizer;
      };
    })
    pure done

  abbrev pub failed_condition : ClusterOAuth → Error → Condition
  failed_condition c e = record {
    type = hub.cluster_oauth_applied;
    status = condition_false;
    reason = "ClusterOAuthAppliedFailed";
    message =
        "ClusterOAuth "
        ++ (c.meta.name
            ++ (" failed to save original OAuth for cluster "
                ++ (c.meta.namespace ++ (" Error:, " ++ e.message))));
  }

  abbrev pub applied_condition : Condition
  applied_condition = record {
    type = hub.cluster_oauth_applied;
    status = condition_true;
    reason = "ClusterOAuthAppliedSucceeded";
    message = "ClusterOAuth successfully applied";
  }

  -- The rest of `Reconcile` after `processClusterOAuth`. Its message takes `err.Error()` even where
  -- only `Requeue` is set, and then there is no error to take it from.
  unfoldable pub report_process : Attempt CtrlResult → Action (W × ClusterOAuth) CtrlResult
  report_process (got result) =
      if result.requeue then crash else set_conditions env applied_condition >> pure done
  report_process (failed e) = object >>= λ c. set_conditions env (failed_condition c e) >> fail e

  unfoldable pub reconcile_instance : ClusterOAuth → Action W CtrlResult
  reconcile_instance target =
      if is_deleting target.meta
      then unless_requeue (delete_cluster_oauth target) (drop_finalizer target)
      else with_object target (attempt process_cluster_oauth >>= report_process)

  unfoldable pub reconcile_found : Option ClusterOAuth → Action W CtrlResult
  reconcile_found none = pure done
  reconcile_found (some target) = reconcile_instance target

  -- `Reconcile`
  unfoldable pub reconcile : ObjectKey → Action W CtrlResult
  reconcile req = read (λ w. or_not_found (env.cluster_oauths.get req w)) >>= reconcile_found
