-- ===== src/Strategy/Reconcile.antt =====
-- controllers/strategy/strategy_controller.go: the reconciler of a strategy. `instance` is the
-- object beside the world in the functions that change it.
use Prim.Native.String.{◌++◌}
use idp_mgmt_operator.Base.{
  String, Bool, true, false, Option, none, some, List, [], ◌∷◌, if◌then◌else◌,
}
use idp_mgmt_operator.Api.Action.{
  Action, Result, ok, err, Error, errorf, Attempt, got, failed, CtrlResult, done, requeue_in_1s,
  is_not_found, pure, fail, read, lift, attempt, or_not_found, for_each, unless_requeue, ◌>>=◌,
  ◌>>◌,
}
use idp_mgmt_operator.Api.Object.{on_world, object, change, store, with_object}
use idp_mgmt_operator.Api.Meta.{
  ObjectKey, OwnerReference, Condition, ConditionStatus, condition_true, condition_false, new_meta,
  is_deleting,
}
use idp_mgmt_operator.Api.Identity.{AuthRealm, Strategy, StrategyType}
use idp_mgmt_operator.Api.Objects.{Placement}
use idp_mgmt_operator.Api.Client.{Env, in_namespace_with}
use idp_mgmt_operator.Helpers.Names.{
  authrealm_finalizer, placement_strategy_label, placement_strategy_name,
}
use idp_mgmt_operator.Helpers.Lookup.{get_authrealm_from_strategy}
use idp_mgmt_operator.Strategy.Selectors.{
  backplane_placement_strategy, hypershift_placement_strategy,
}
use idp_mgmt_operator.Strategy.Owners.{is_last_owner_reference, remove_owner_reference}
use idp_mgmt_operator.Strategy.Report.{update_strategy_status_conditions}

-- `strategy type %s not supported`
abbrev pub unsupported : String → Error
unsupported type = errorf ("strategy type " ++ (type ++ " not supported"))

-- The switch of `processStrategyUpdate` on the type.
unfoldable pub enrich : StrategyType → String → Placement → Placement → Result Placement
enrich StrategyType.backplane text placement placement_strategy =
    ok (backplane_placement_strategy placement placement_strategy)
enrich StrategyType.hypershift text placement placement_strategy =
    ok (hypershift_placement_strategy placement placement_strategy)
enrich (StrategyType.other t) text placement placement_strategy = err (unsupported text)

abbrev pub applied_condition : String → ConditionStatus → String → String → Condition
applied_condition type status reason message = record {
  type = type;
  status = status;
  reason = reason;
  message = message;
}

abbrev pub set_owner_references : List OwnerReference → Placement → Placement
set_owner_references refs pl = record pl { meta = record (pl.meta) { owner_references = refs } }

-- What `Get` has found, or the placement to create, and whether it exists.
unfoldable pub found_or_new : Option Placement → String → String → Placement → Placement × Bool
found_or_new (some pl) name namespace placement = (pl, true)
found_or_new none name namespace placement = (
  record {
    meta = record (new_meta name namespace) {
      labels = (placement_strategy_label, placement.meta.name) ∷ [];
    };
    spec = placement.spec;
    number_of_selected_clusters = 0;
    conditions = [];
  },
  false,
)

module _ {W : Type 0} (env : Env W) where
  -- The body of the loop of `deleteStrategyPlacement`.
  unfoldable pub delete_if_found : Placement → Action W (Unit {0})
  delete_if_found sp = do
    outcome ← attempt (env.placements.delete sp)
    elim outcome [ got _ ↦ pure tt | failed e ↦ if is_not_found e then pure tt else fail e ]

  -- `deleteStrategyPlacement`
  unfoldable pub delete_strategy_placement : String → String → Action W (Unit {0})
  delete_strategy_placement name namespace = do
    items ←
        read (
          env.placements.list (in_namespace_with namespace ((placement_strategy_label, name) ∷ [])))
    for_each items delete_if_found

  -- `getStrategyPlacement`: the placement of the strategy, and whether it exists
  unfoldable pub get_strategy_placement :
      Strategy → AuthRealm → Placement → Action W (Placement × Bool)
  get_strategy_placement strategy auth_realm placement = do
    let name = placement_strategy_name env.strategy_type_text strategy auth_realm
    let key : ObjectKey = record { name = name; namespace = strategy.meta.namespace }
    found ← read (λ w. or_not_found (env.placements.get key w))
    let (placement_strategy, placement_strategy_exists) =
        found_or_new found name strategy.meta.namespace placement
    refs ←
        lift (
          env.set_owner_reference "Strategy" strategy.meta placement_strategy.meta.owner_references)
    pure (set_owner_references refs placement_strategy, placement_strategy_exists)

  -- The end of `processStrategyUpdate`, once the user's placement is known.
  unfoldable pub sync_placement : AuthRealm → Placement → Action (W × Strategy) (Unit {0})
  sync_placement auth_realm placement = do
    strategy ← object
    (placement_strategy, exists) ← on_world (get_strategy_placement strategy auth_realm placement)
    enriched ← on_world (
        lift (
          enrich strategy.type (env.strategy_type_text strategy.type) placement placement_strategy))
    change (λ s. record s { placement_ref = enriched.meta.name })
    store env.strategies.update
    saved ←
        on_world (if exists then env.placements.update enriched else env.placements.create enriched)
    pure tt

  -- `processStrategyUpdate`, on the strategy in memory
  unfoldable pub process_strategy_update : Action (W × Strategy) (Unit {0})
  process_strategy_update = do
    change (λ s. record s {
      meta = record (s.meta) {
        finalizers = env.add_finalizer s.meta.finalizers authrealm_finalizer;
      };
    })
    store env.strategies.update
    strategy ← object
    auth_realm ← on_world (get_authrealm_from_strategy env strategy)
    let name = auth_realm.spec.placement_ref
    let namespace = strategy.meta.namespace
    elim (is_deleting auth_realm.meta) [
      | true ↦ pure tt
      | false ↦ do
        found ← on_world (
            read (λ w.
              or_not_found (env.placements.get (record { name = name; namespace = namespace }) w)))
        elim found [
          | none ↦ on_world (delete_strategy_placement name namespace)
          | some placement ↦ sync_placement auth_realm placement
        ]
    ]

  -- The case of `processStrategyDeletion` in which the strategy's placement exists.
  unfoldable pub release_placement : Strategy → Placement → Action W CtrlResult
  release_placement strategy pl = do
    last ← lift (is_last_owner_reference pl.meta.owner_references strategy.meta.uid)
    elim last [
      | true ↦ (env.placements.delete pl >> pure requeue_in_1s)
      | false ↦ do
        updated ← env.placements.update (
            set_owner_references
              (remove_owner_reference pl.meta.owner_references strategy.meta.uid).0 pl)
        pure done
    ]

  -- `processStrategyDeletion`
  unfoldable pub process_strategy_deletion : Strategy → Action W CtrlResult
  process_strategy_deletion strategy = do
    auth_realm ← get_authrealm_from_strategy env strategy
    let name = placement_strategy_name env.strategy_type_text strategy auth_realm
    found ← read (λ w.
        or_not_found
          (env.placements.get (record { name = name; namespace = strategy.meta.namespace }) w))
    elim found [ some pl ↦ release_placement strategy pl | none ↦ pure done ]

  unfoldable pub drop_finalizer : Strategy → Action W CtrlResult
  drop_finalizer instance = do
    updated ← env.strategies.update (record instance {
      meta = record (instance.meta) {
        finalizers = env.remove_finalizer instance.meta.finalizers authrealm_finalizer;
      };
    })
    pure done

  -- The end of `Reconcile`: the outcome of the update as a condition.
  unfoldable pub report_update : Attempt (Unit {0}) → Action (W × Strategy) CtrlResult
  report_update (failed e) = do
    update_strategy_status_conditions env (
        applied_condition env.strategy_applied condition_false "StrategyAppliedFailed"
          ("Strategy apply failed: " ++ e.message))
    fail e
  report_update (got _) = do
    update_strategy_status_conditions env (
        applied_condition env.strategy_applied condition_true "StrategyAppliedSucceeded"
          "Strategy successfully applied")
    pure done

  unfoldable pub reconcile_instance : Strategy → Action W CtrlResult
  reconcile_instance target =
      if is_deleting target.meta
      then unless_requeue (process_strategy_deletion target) (drop_finalizer target)
      else with_object target (attempt process_strategy_update >>= report_update)

  -- `Reconcile`
  unfoldable pub reconcile : ObjectKey → Action W CtrlResult
  reconcile req = do
    found ← read (λ w. or_not_found (env.strategies.get req w))
    elim found [ none ↦ pure done | some target ↦ reconcile_instance target ]
