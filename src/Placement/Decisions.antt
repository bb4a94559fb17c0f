-- ===== src/Placement/Decisions.antt =====
-- `GetStrategyFromPlacement` and `inPlacementDecision` of controllers/placement/common.go, and
-- `isLinkedToStrategy` of placement_controller.go.
use idp_mgmt_operator.Base.{String, Bool, not, List, [], ◌∷◌, ◌==◌, any, is_none, if◌then◌else◌}
use idp_mgmt_operator.Api.Action.{Action, pure, read, ◌>>=◌}
use idp_mgmt_operator.Api.Meta.{ObjectMeta, lookup}
use idp_mgmt_operator.Api.Identity.{Strategy}
use idp_mgmt_operator.Api.Objects.{Placement, PlacementDecision}
use idp_mgmt_operator.Api.Client.{Env, in_namespace, in_namespace_with}
use idp_mgmt_operator.Helpers.Names.{placement_strategy_label}

-- The loop of `GetStrategyFromPlacement`.
unfoldable pub strategies_named : String → List Strategy → List Strategy
strategies_named name [] = []
strategies_named name (s ∷ ss) =
    if s.placement_ref == name then s ∷ strategies_named name ss else strategies_named name ss

-- The two loops of `inPlacementDecision`.
unfoldable pub is_decided : String → List PlacementDecision → Bool
is_decided cluster_name placement_decisions =
    any (λ d. any (λ c. c == cluster_name) d.decisions) placement_decisions

unfoldable pub is_linked_to_strategy : ObjectMeta → Bool
is_linked_to_strategy meta = not (is_none (lookup placement_strategy_label meta.labels))

module _ {W : Type 0} (env : Env W) where
  unfoldable pub get_strategy_from_placement : Placement → Action W (List Strategy)
  get_strategy_from_placement placement = do
    strategies ← read (env.strategies.list (in_namespace placement.meta.namespace))
    pure (strategies_named placement.meta.name strategies)

  -- The placement decisions of a placement, by its label.
  unfoldable pub list_placement_decisions : Placement → Action W (List PlacementDecision)
  list_placement_decisions placement = read (
      env.placement_decisions.list (
        in_namespace_with placement.meta.namespace
          ((env.placement_label, placement.meta.name) ∷ [])))

  unfoldable pub in_placement_decision : String → Placement → Action W Bool
  in_placement_decision cluster_name placement = do
    placement_decisions ← list_placement_decisions placement
    pure (is_decided cluster_name placement_decisions)
