-- ===== src/AuthRealm/Reconcile.antt =====
-- controllers/authrealm/authrealm_controller.go, strategy.go and authrealm_status.go, with
-- `syncDexCRs` and `installDexOperator` of dex.go.
use Prim.Native.String.{◌++◌}
use idp_mgmt_operator.Base.{
  String, Bool, ◌||◌, Option, none, some, List, [], ◌∷◌, ◌==◌, if◌then◌else◌,
}
use idp_mgmt_operator.Api.Action.{
  Action, Result, ok, err, Error, errorf, Attempt, got, failed, CtrlResult, done, pure, fail, read,
  lift, attempt, or_not_found, unless_requeue, ◌>>=◌, ◌>>◌,
}
use idp_mgmt_operator.Api.Object.{on_world, object, change, store, with_object}
use idp_mgmt_operator.Api.Meta.{
  Labels, ObjectKey, Condition, condition_true, condition_false, is_deleting,
}
use idp_mgmt_operator.Api.Identity.{AuthRealm, StrategyType}
use idp_mgmt_operator.Api.Client.{Env}
use idp_mgmt_operator.Helpers.Names.{
  authrealm_finalizer, dex_operator_namespace, dex_server_namespace, strategy_name,
}
use idp_mgmt_operator.Helpers.Status.{merge_status_conditions}
use idp_mgmt_operator.Helpers.Lookup.{create_strategy}
use idp_mgmt_operator.AuthRealm.DexServer.{dex_server_name, create_dex_server}
use idp_mgmt_operator.AuthRealm.Deletion.{process_authrealm_deletion, drop_finalizer}

-- What `installDexOperator` calls: the environment of the process and the applier of clusteradm,
-- which takes the values of the templates and their files.
pub record Installer (W : Type 0) : Type 0 where
  pub getenv : String → String
  pub apply_directly : Labels → List String → Action W (Unit {0})
  pub apply_deployments : Labels → List String → Action W (Unit {0})
  -- `ApplyDirectly` of custom resource definitions, which take no values
  pub apply_crds : List String → Action W (Unit {0})

abbrev pub installer_values : String → String → Labels
installer_values image dex_server_image =
    ("Image", image)
    ∷ ("DexServerImage", dex_server_image)
    ∷ ("File", "rbac/role.yaml")
    ∷ ("NewName", "dex-operator-manager-role")
    ∷ ("FileLeader", "rbac/leader_election_role.yaml")
    ∷ ("NewNameLeader", "dex-operator-leader-election-role")
    ∷ ("NewNamespaceLeader", dex_operator_namespace)
    ∷ []

abbrev pub installer_files : List String
installer_files =
    "dex-operator/namespace.yaml" ∷ "dex-operator/service_account.yaml" ∷ "dex-operator/role.yaml"
    ∷ "dex-operator/role_binding.yaml" ∷ "dex-operator/leader_election_role.yaml"
    ∷ "dex-operator/leader_election_role_binding.yaml" ∷ []

-- The value of an environment variable that has to be set.
unfoldable pub required : String → String → Result String
required name value =
    if value == "" then err (errorf ("EnvVar " ++ (name ++ " not provided"))) else ok value

-- `(*metav1.Condition, error)` with an error.
pub record Failure : Type 0 where
  pub condition : Option Condition
  pub error : Error

-- A step of a function that returns a condition with its error.
infixl 5 ◌or_fail◌
abbrev pub ◌or_fail◌ :
    {W : Type 0}
    → Action W (Attempt (Unit {0})) × (Error → Option Condition)
    → Action W (Option Failure)
    → Action W (Option Failure)
(m, condition) or_fail k =
    m
    >>= elim [ got _ ↦ k | failed e ↦ pure (some (record { condition = condition e; error = e })) ]

module _ {W : Type 0} (installer : Installer W) where
  -- `installDexOperatorCRDs`, which `SetupWithManager` calls
  unfoldable pub install_dex_operator_crds : Action W (Unit {0})
  install_dex_operator_crds = installer.apply_crds (
      "crd/bases/auth.identitatem.io_dexclients.yaml"
      ∷ "crd/bases/auth.identitatem.io_dexservers.yaml" ∷ [])

module _ {W : Type 0} (env : Env W) (installer : Installer W) where
  abbrev pub applied_failed : String → Condition
  applied_failed message = record {
    type = env.authrealm_applied;
    status = condition_false;
    reason = "AuthRealmAppliedFailed";
    message = message;
  }

  -- `installDexOperator`
  unfoldable pub install_dex_operator : Action W (Unit {0})
  install_dex_operator = do
    image ←
        lift (required "RELATED_IMAGE_DEX_OPERATOR" (installer.getenv "RELATED_IMAGE_DEX_OPERATOR"))
    dex_server_image ←
        lift (required "RELATED_IMAGE_DEX_SERVER" (installer.getenv "RELATED_IMAGE_DEX_SERVER"))
    installer.apply_directly (installer_values image dex_server_image) installer_files
    installer.apply_deployments (installer_values image dex_server_image)
        ("dex-operator/manager.yaml" ∷ [])

  abbrev pub dex_server_failed : AuthRealm → Error → Condition
  dex_server_failed auth_realm e = applied_failed (
      "failed to create dexServer name: "
      ++ (dex_server_name
          ++ (" namespace: " ++ (dex_server_namespace auth_realm ++ (" error: " ++ e.message)))))

  abbrev pub strategy_failed : AuthRealm → StrategyType → Error → Condition
  strategy_failed auth_realm t e = applied_failed (
      "failed to create strategy type: "
      ++ (env.strategy_type_text t
          ++ (" name: "
              ++ (strategy_name env.strategy_type_text auth_realm t
                  ++ (" namespace: "
                      ++ (auth_realm.meta.namespace ++ (" error: " ++ e.message)))))))

  -- `syncDexCRs`
  unfoldable pub sync_dex_crs : AuthRealm → Action W (Option Failure)
  sync_dex_crs auth_realm = elim auth_realm.spec.identity_providers [
    | [] ↦ pure (
        some (record {
          condition = none;
          error = errorf (
              "the identityproviders array of the authrealm "
              ++ (auth_realm.meta.name ++ " can have one and only one element"));
        }))
    | idp ∷ idps ↦
        (
          attempt install_dex_operator,
          λ e. some (applied_failed ("failed to install installDexOperator error: " ++ e.message)),
        )
        or_fail ((
          attempt (create_dex_server env auth_realm),
          λ e. some (dex_server_failed auth_realm e),
        )
            or_fail (pure none))
  ]

  -- `createStrategies`
  unfoldable pub create_strategies : AuthRealm → Action W (Option Failure)
  create_strategies auth_realm =
      (
        attempt (create_strategy env StrategyType.backplane auth_realm),
        λ e. some (strategy_failed auth_realm StrategyType.backplane e),
      )
      or_fail ((
        attempt (create_strategy env StrategyType.hypershift auth_realm),
        λ e. some (strategy_failed auth_realm StrategyType.hypershift e),
      )
          or_fail (pure none))

  -- `Spec.Type == AuthProxyDex || Spec.Type == ""`
  unfoldable pub is_served_by_dex : AuthRealm → Bool
  is_served_by_dex auth_realm =
      auth_realm.spec.type == env.auth_proxy_dex || auth_realm.spec.type == ""

  -- `processAuthRealmUpdate`, on the AuthRealm in memory: a failure with its condition, or none
  unfoldable pub process_authrealm_update : Action (W × AuthRealm) (Option Failure)
  process_authrealm_update = do
    change (λ r. record r {
      meta = record (r.meta) {
        finalizers = env.add_finalizer r.meta.finalizers authrealm_finalizer;
      };
    })
    saved ← attempt (store env.auth_realms.update)
    elim saved [
      | failed e ↦ pure (some (record { condition = none; error = e }))
      | got _ ↦ do
        auth_realm ← object
        synced ←
            on_world (if is_served_by_dex auth_realm then sync_dex_crs auth_realm else pure none)
        elim synced [
          | some failure ↦ pure (some failure)
          | none ↦ on_world (create_strategies auth_realm)
        ]
    ]

  -- `updateAuthRealmStatusConditions`
  unfoldable pub update_authrealm_status_conditions : Condition → Action (W × AuthRealm) (Unit {0})
  update_authrealm_status_conditions new_condition = do
    base ← object
    change (λ r. record r {
      conditions =
          merge_status_conditions env.set_status_condition r.conditions (new_condition ∷ []);
    })
    store (env.auth_realms.patch_status base)

  -- The condition of a failure: its own, or the default.
  unfoldable pub condition_of : Failure → Condition
  condition_of failure = elim failure.condition [
    | some c ↦ c
    | none ↦ applied_failed failure.error.message
  ]

  -- The end of `Reconcile` after an update.
  unfoldable pub report_update : Option Failure → Action (W × AuthRealm) CtrlResult
  report_update (some failure) = do
    update_authrealm_status_conditions (condition_of failure)
    fail failure.error
  report_update none = do
    update_authrealm_status_conditions (record {
      type = env.authrealm_applied;
      status = condition_true;
      reason = "AuthRealmAppliedSucceeded";
      message = "AuthRealm successfully applied";
    })
    pure done

module _ {W : Type 0} (env : Env W) where
  unfoldable pub reconcile_instance : Installer W → AuthRealm → Action W CtrlResult
  reconcile_instance installer target =
      if is_deleting target.meta
      then unless_requeue (process_authrealm_deletion env target) (drop_finalizer env target)
      else with_object target
          (process_authrealm_update env installer >>= report_update env installer)

  -- `Reconcile`
  unfoldable pub reconcile : Installer W → ObjectKey → Action W CtrlResult
  reconcile installer req = do
    found ← read (λ w. or_not_found (env.auth_realms.get req w))
    elim found [ none ↦ pure done | some target ↦ reconcile_instance installer target ]
