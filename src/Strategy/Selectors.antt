-- ===== src/Strategy/Selectors.antt =====
-- controllers/strategy/common.go, backplane_strategy.go and hypershift_strategy.go: how the
-- predicates of a strategy's placement are made of those of the user's placement.
use mathlib.Core.List.{foldl}
use idp_mgmt_operator.Base.{List, [], ◌∷◌, ◌++◌}
use idp_mgmt_operator.Api.Objects.{SelectorOperator, Requirement, ClusterSelector, Placement}
use idp_mgmt_operator.Helpers.Names.{hosted_cluster_cluster_claim}

unfoldable pub hosted_cluster_requirement : Requirement
hosted_cluster_requirement = record {
  key = hosted_cluster_cluster_claim;
  operator = SelectorOperator.in_values;
  values = "true" ∷ [];
}

unfoldable pub not_hosted_cluster_requirement : Requirement
not_hosted_cluster_requirement = record {
  key = hosted_cluster_cluster_claim;
  operator = SelectorOperator.not_in_values;
  values = "true" ∷ [];
}

-- One round of the loop of `addUserDefinedSelectors`, on the selector of `Predicates[0]`.
unfoldable pub add_user_defined_selector : ClusterSelector → ClusterSelector → ClusterSelector
add_user_defined_selector selector cp = record {
  claim_expressions = selector.claim_expressions ++ cp.claim_expressions;
  label_selector = record {
    match_expressions =
        selector.label_selector.match_expressions ++ cp.label_selector.match_expressions;
    match_labels = cp.label_selector.match_labels;
  };
}

unfoldable pub add_user_defined_selectors : Placement → ClusterSelector → ClusterSelector
unfolding add_user_defined_selector
add_user_defined_selectors placement selector =
    foldl add_user_defined_selector selector placement.spec.predicates

abbrev pub claim_selector : Requirement → ClusterSelector
claim_selector requirement = record {
  label_selector = record { match_labels = []; match_expressions = [] };
  claim_expressions = requirement ∷ [];
}

abbrev pub set_predicates : List ClusterSelector → Placement → Placement
set_predicates predicates placement = record placement {
  spec = record (placement.spec) { predicates = predicates };
}

-- `backplanePlacementStrategy` and `hypershiftPlacementStrategy`: the user's placement, then the
-- strategy's.
unfoldable pub backplane_placement_strategy : Placement → Placement → Placement
unfolding add_user_defined_selectors not_hosted_cluster_requirement
backplane_placement_strategy placement placement_strategy =
    set_predicates
      (add_user_defined_selectors placement (claim_selector not_hosted_cluster_requirement) ∷ [])
      placement_strategy

unfoldable pub hypershift_placement_strategy : Placement → Placement → Placement
unfolding add_user_defined_selectors hosted_cluster_requirement
hypershift_placement_strategy placement placement_strategy =
    set_predicates
      (add_user_defined_selectors placement (claim_selector hosted_cluster_requirement) ∷ [])
      placement_strategy
