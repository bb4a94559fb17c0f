-- ===== src/Strategy/Report.antt =====
-- controllers/strategy/authrealm_status.go: the conditions of a strategy, and their copy in the
-- status of its AuthRealm.
use idp_mgmt_operator.Base.{Option, none, some, ℕ, String, none, some, List, [], ◌∷◌, ◌++◌, length}
use idp_mgmt_operator.Api.Action.{Action, pure, ◌>>=◌, ◌>>◌}
use idp_mgmt_operator.Api.Object.{on_world, object, change, store}
use idp_mgmt_operator.Api.Meta.{Condition}
use idp_mgmt_operator.Api.Identity.{AuthRealm, Strategy, StrategySummary}
use idp_mgmt_operator.Api.Client.{Env}
use idp_mgmt_operator.Helpers.Status.{merge_status_conditions, get_strategy_status_index, modify_at}
use idp_mgmt_operator.Helpers.Lookup.{get_authrealm_from_strategy}

-- The entry that is appended for a strategy that has none.
abbrev pub new_strategy_summary : String → StrategySummary
new_strategy_summary name = record {
  name = name;
  conditions = [];
  placement = record { name = ""; number_of_selected_clusters = 0; conditions = [] };
  clusters = [];
}

-- The list of strategies with an entry of that name, and the position of the entry: the test for
-- -1 and the append.
unfoldable pub ensure_at : Option ℕ → String → List StrategySummary → List StrategySummary × ℕ
ensure_at none name strategies = (strategies ++ new_strategy_summary name ∷ [], length strategies)
ensure_at (some i) name strategies = (strategies, i)

unfoldable pub ensure_strategy : String → List StrategySummary → List StrategySummary × ℕ
ensure_strategy name strategies =
    ensure_at (get_strategy_status_index strategies name) name strategies

-- The entry of that name, changed by `f`: the indexed assignments of a status update.
unfoldable pub with_strategy :
    String → (StrategySummary → StrategySummary) → List StrategySummary → List StrategySummary
with_strategy name f strategies =
    let (strategies', strategy_index) = ensure_strategy name strategies in
    modify_at strategy_index f strategies'

abbrev pub set_conditions : List Condition → StrategySummary → StrategySummary
set_conditions conditions s = record s { conditions = conditions }

module _ {W : Type 0} (env : Env W) where
  -- `UpdateAuthRealmStatusStrategyConditions`
  unfoldable pub update_authrealm_status_strategy_conditions :
      AuthRealm → Strategy → Action W (Unit {0})
  update_authrealm_status_strategy_conditions auth_realm strategy = do
    env.auth_realms.patch_status auth_realm (record auth_realm {
      strategies =
          with_strategy strategy.meta.name (set_conditions strategy.conditions)
            auth_realm.strategies;
    })
    pure tt

  -- `UpdateStrategyStatusConditions`, on the strategy in memory
  unfoldable pub update_strategy_status_conditions : Condition → Action (W × Strategy) (Unit {0})
  update_strategy_status_conditions new_condition = do
    base ← object
    change (λ s. record s {
      conditions =
          merge_status_conditions env.set_status_condition s.conditions (new_condition ∷ []);
    })
    store (env.strategies.patch_status base)
    strategy ← object
    auth_realm ← on_world (get_authrealm_from_strategy env strategy)
    on_world (update_authrealm_status_strategy_conditions auth_realm strategy)
