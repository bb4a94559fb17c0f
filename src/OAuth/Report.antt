-- ===== src/OAuth/Report.antt =====
-- controllers/clusteroauth/authrealm_status.go: the conditions of a ClusterOAuth, their copy in the
-- status of its AuthRealm, and the removal of the cluster from that status.
use Prim.Native.String.{◌++◌}
use idp_mgmt_operator.Base.{ℕ, zero, suc, String, List, [], ◌∷◌, length}
use mathlib.Core.List as lists
use idp_mgmt_operator.Api.Action.{
  Action, Attempt, got, failed, CtrlResult, done, pure, fail, read, ◌>>=◌, ◌>>◌,
}
use idp_mgmt_operator.Api.Object.{with_object, on_world, object, change, store}
use idp_mgmt_operator.Api.Meta.{Condition, ObjectKey, condition_false}
use idp_mgmt_operator.Api.Identity.{AuthRealm, ClusterOAuth, ClusterStatus}
use idp_mgmt_operator.Api.Client.{Env}
use idp_mgmt_operator.Api.Work.{Hub}
use idp_mgmt_operator.Helpers.Status.{merge_status_conditions, modify_at}
use idp_mgmt_operator.Helpers.Position.{
  strategy_not_found, Position, no_strategy, no_cluster, at, cluster_position, modify_clusters,
  new_cluster_status,
}

-- `append(xs[:i], xs[i+1:]...)`
unfoldable pub remove_at {ℓ} : {A : Type ℓ} → ℕ → List A → List A
remove_at i [] = []
remove_at zero (x ∷ xs) = xs
remove_at (suc i) (x ∷ xs) = x ∷ remove_at i xs

abbrev pub auth_realm_key : ClusterOAuth → ObjectKey
auth_realm_key cluster_oauth = record {
  name = cluster_oauth.auth_realm_reference.name;
  namespace = cluster_oauth.auth_realm_reference.namespace;
}

module _ {W : Type 0} (env : Env W) where
  -- The assignments to the entry of the cluster.
  unfoldable pub set_cluster_oauth : ClusterOAuth → ClusterStatus → ClusterStatus
  set_cluster_oauth cluster_oauth c = record c {
    cluster_oauth = record {
      name = cluster_oauth.meta.name;
      conditions =
          merge_status_conditions env.set_status_condition c.cluster_oauth.conditions
            cluster_oauth.conditions;
    };
  }

  -- `updateAuthRealmStatusClusterOAuthConditions`, from the indexes on
  unfoldable pub update_cluster_at : Position → AuthRealm → ClusterOAuth → Action W (Unit {0})
  update_cluster_at no_strategy auth_realm cluster_oauth = fail (strategy_not_found cluster_oauth)
  update_cluster_at (no_cluster i) auth_realm cluster_oauth =
      env.auth_realms.patch_status auth_realm (record auth_realm {
        strategies =
            modify_clusters i
              (λ cs.
                modify_at (length cs) (set_cluster_oauth cluster_oauth)
                  (lists.◌++◌ cs (new_cluster_status cluster_oauth.meta.namespace ∷ [])))
              auth_realm.strategies;
      })
      >> pure tt
  update_cluster_at (at i j) auth_realm cluster_oauth =
      env.auth_realms.patch_status auth_realm (record auth_realm {
        strategies =
            modify_clusters i (modify_at j (set_cluster_oauth cluster_oauth)) auth_realm.strategies;
      })
      >> pure tt

  unfoldable pub update_authrealm_status_cluster_oauth_conditions :
      AuthRealm → ClusterOAuth → Action W (Unit {0})
  update_authrealm_status_cluster_oauth_conditions auth_realm cluster_oauth =
      update_cluster_at
        (cluster_position auth_realm.strategies cluster_oauth.strategy_reference.name
          cluster_oauth.meta.namespace)
        auth_realm cluster_oauth

  -- `setConditions`, on the ClusterOAuth in memory
  unfoldable pub set_conditions : Condition → Action (W × ClusterOAuth) (Unit {0})
  set_conditions new_condition = do
    base ← object
    change (λ c. record c {
      conditions =
          merge_status_conditions env.set_status_condition c.conditions (new_condition ∷ []);
    })
    store (env.cluster_oauths.patch_status base)
    cluster_oauth ← object
    auth_realm ← on_world (read (env.auth_realms.get (auth_realm_key cluster_oauth)))
    on_world (update_authrealm_status_cluster_oauth_conditions auth_realm cluster_oauth)

  -- `deleteAuthRealmConditions`, from the indexes on
  unfoldable pub drop_cluster_at : Position → AuthRealm → Action W (Unit {0})
  drop_cluster_at no_strategy auth_realm = pure tt
  drop_cluster_at (no_cluster i) auth_realm = pure tt
  drop_cluster_at (at i j) auth_realm =
      env.auth_realms.patch_status auth_realm
        (record auth_realm { strategies = modify_clusters i (remove_at j) auth_realm.strategies })
      >> pure tt

  unfoldable pub delete_auth_realm_conditions : ClusterOAuth → Action W (Unit {0})
  delete_auth_realm_conditions cluster_oauth = do
    auth_realm ← read (env.auth_realms.get (auth_realm_key cluster_oauth))
    drop_cluster_at
        (cluster_position auth_realm.strategies cluster_oauth.strategy_reference.name
          cluster_oauth.meta.namespace)
        auth_realm

  -- A failed push, as both managers report it.
  unfoldable pub report_failed_push :
      Hub W → String → String → ClusterOAuth → Attempt (Unit {0}) → Action W CtrlResult
  report_failed_push hub reason does cluster_oauth (got u) = pure done
  report_failed_push hub reason does cluster_oauth (failed e) =
      with_object cluster_oauth (
        set_conditions (record {
          type = hub.cluster_oauth_applied;
          status = condition_false;
          reason = reason;
          message =
              "ClusterOAuth "
              ++ (cluster_oauth.meta.name
                  ++ (does ++ (cluster_oauth.meta.namespace ++ (" Error:, " ++ e.message))));
        }))
      >> fail e
