-- ===== src/AuthRealm/Deletion.antt =====
-- What `processAuthRealmDeletion` of controllers/authrealm/authrealm_controller.go deletes, with
-- `deleteStrategies` of strategy.go and `deleteDexOperator` of dex.go.

use idp_mgmt_operator.Base.{ℕ, zero, suc, not, ◌&&◌, ◌||◌, List, [], ◌∷◌, ◌==◌, if◌then◌else◌}
use idp_mgmt_operator.Api.Action.{Action, CtrlResult, done, pure, read, unless_requeue, ◌>>=◌}
use idp_mgmt_operator.Api.Meta.{is_deleting}
use idp_mgmt_operator.Api.Identity.{AuthRealm, StrategyType}
use idp_mgmt_operator.Api.Client.{Env, all_namespaces}
use idp_mgmt_operator.Helpers.Names.{authrealm_finalizer, dex_operator_namespace, strategy_name}
use idp_mgmt_operator.AuthRealm.DexServer.{
  cluster_key, process_dex_server_deletion, delete_if_found,
}

module _ {W : Type 0} (env : Env W) where
  -- `deleteStrategy`
  unfoldable pub delete_strategy : AuthRealm → StrategyType → Action W CtrlResult
  delete_strategy auth_realm t = delete_if_found env.strategies (record {
    name = strategy_name env.strategy_type_text auth_realm t;
    namespace = auth_realm.meta.namespace;
  })

  -- `deleteStrategies`
  unfoldable pub delete_strategies : AuthRealm → Action W CtrlResult
  delete_strategies auth_realm =
      unless_requeue (delete_strategy auth_realm StrategyType.backplane)
        (unless_requeue (delete_strategy auth_realm StrategyType.hypershift) (pure done))

  -- The loop that counts the AuthRealms that dex still serves.
  unfoldable pub count_served : List AuthRealm → ℕ
  count_served [] = 0
  count_served (r ∷ rs) =
      if (r.spec.type == env.auth_proxy_dex || r.spec.type == "") && not (is_deleting r.meta)
      then suc (count_served rs)
      else count_served rs

  unfoldable pub delete_operator_objects : ℕ → Action W CtrlResult
  delete_operator_objects zero =
      unless_requeue (delete_if_found env.namespaces (cluster_key dex_operator_namespace)) (
        unless_requeue
          (delete_if_found env.cluster_role_bindings (cluster_key "dex-operator-rolebinding"))
          (unless_requeue
            (delete_if_found env.cluster_roles (cluster_key "dex-operator-manager-role"))
            (pure done)))
  delete_operator_objects (suc n) = pure done

  -- `deleteDexOperator`
  unfoldable pub delete_dex_operator : Action W CtrlResult
  delete_dex_operator = do
    auth_realms ← read (env.auth_realms.list all_namespaces)
    delete_operator_objects (count_served auth_realms)

  -- `processAuthRealmDeletion`
  unfoldable pub process_authrealm_deletion : AuthRealm → Action W CtrlResult
  process_authrealm_deletion auth_realm =
      unless_requeue (process_dex_server_deletion env auth_realm)
        (unless_requeue (delete_strategies auth_realm) delete_dex_operator)

  unfoldable pub drop_finalizer : AuthRealm → Action W CtrlResult
  drop_finalizer target = do
    updated ← env.auth_realms.update (record target {
      meta = record (target.meta) {
        finalizers = env.remove_finalizer target.meta.finalizers authrealm_finalizer;
      };
    })
    pure done
