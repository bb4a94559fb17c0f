-- ===== src/Placement/Reconcile.antt =====
-- controllers/placement/placement_controller.go and authrealm_status.go, with `syncDexClients` of
-- dex.go. `random` gives the text of a new secret, by the key of the secret.
use idp_mgmt_operator.Base.{String, none, some, if◌then◌else◌}
use idp_mgmt_operator.Api.Action.{
  Action, CtrlResult, done, pure, read, or_not_found, for_each_unless_requeue, unless_requeue,
  ◌>>=◌, ◌>>◌,
}
use idp_mgmt_operator.Api.Meta.{ObjectKey, is_deleting}
use idp_mgmt_operator.Api.Identity.{AuthRealm, Strategy, StrategySummary}
use idp_mgmt_operator.Api.Objects.{Placement}
use idp_mgmt_operator.Api.Client.{Env}
use idp_mgmt_operator.Helpers.Names.{authrealm_finalizer}
use idp_mgmt_operator.Helpers.Lookup.{get_authrealm_from_strategy}
use idp_mgmt_operator.Strategy.Report.{with_strategy}
use idp_mgmt_operator.Placement.Decisions.{get_strategy_from_placement}
use idp_mgmt_operator.Placement.Create.{create_configs}
use idp_mgmt_operator.Placement.Delete.{delete_obsolete_configs, process_placement_deletion}

-- The assignments to the placement of a strategy's entry.
abbrev pub set_placement : Placement → StrategySummary → StrategySummary
set_placement placement s = record s {
  placement = record {
    name = placement.meta.name;
    number_of_selected_clusters = placement.number_of_selected_clusters;
    conditions = placement.conditions;
  };
}

module _ {W : Type 0} (env : Env W) where
  -- `updateAuthRealmStatusPlacementStatus`
  unfoldable pub update_authrealm_status_placement_status :
      Strategy → Placement → Action W (Unit {0})
  update_authrealm_status_placement_status strategy placement = do
    auth_realm ← get_authrealm_from_strategy env strategy
    patched ← env.auth_realms.patch_status auth_realm (record auth_realm {
      strategies = with_strategy strategy.meta.name (set_placement placement) auth_realm.strategies;
    })
    pure tt

  -- `syncDexClients`
  unfoldable pub sync_dex_clients :
      (ObjectKey → String) → AuthRealm → Strategy → Placement → Action W CtrlResult
  sync_dex_clients random auth_realm strategy placement =
      unless_requeue (delete_obsolete_configs env auth_realm strategy placement)
        (create_configs env random auth_realm strategy placement >> pure done)

  -- `processPlacement`
  unfoldable pub process_placement :
      (ObjectKey → String) → AuthRealm → Strategy → Placement → Action W CtrlResult
  process_placement random auth_realm strategy placement =
      unless_requeue (sync_dex_clients random auth_realm strategy placement) (pure done)

  -- The body of the loop of `processPlacementUpdate`.
  unfoldable pub process_strategy :
      (ObjectKey → String) → Placement → Strategy → Action W CtrlResult
  process_strategy random placement strategy = do
    auth_realm ← get_authrealm_from_strategy env strategy
    unless_requeue (process_placement random auth_realm strategy placement)
        (update_authrealm_status_placement_status strategy placement >> pure done)

  -- `processPlacementUpdate`
  unfoldable pub process_placement_update : (ObjectKey → String) → Placement → Action W CtrlResult
  process_placement_update random placement = do
    updated ← env.placements.update (record placement {
      meta = record (placement.meta) {
        finalizers = env.add_finalizer placement.meta.finalizers authrealm_finalizer;
      };
    })
    strategies ← get_strategy_from_placement env updated
    for_each_unless_requeue strategies (process_strategy random updated)

  unfoldable pub drop_finalizer : Placement → Action W CtrlResult
  drop_finalizer target = do
    updated ← env.placements.update (record target {
      meta = record (target.meta) {
        finalizers = env.remove_finalizer target.meta.finalizers authrealm_finalizer;
      };
    })
    pure done

  unfoldable pub reconcile_instance : (ObjectKey → String) → Placement → Action W CtrlResult
  reconcile_instance random target =
      if is_deleting target.meta
      then unless_requeue (process_placement_deletion env target) (drop_finalizer target)
      else unless_requeue (process_placement_update random target) (pure done)

  -- `Reconcile`
  unfoldable pub reconcile : (ObjectKey → String) → ObjectKey → Action W CtrlResult
  reconcile random req = do
    found ← read (λ w. or_not_found (env.placements.get req w))
    elim found [ none ↦ pure done | some target ↦ reconcile_instance random target ]
