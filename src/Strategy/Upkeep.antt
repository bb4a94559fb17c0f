-- ===== src/Strategy/Upkeep.antt =====
-- What an update leaves of the placement that a strategy has.
use idp_mgmt_operator.Base.{String, none, some, ◌≡◌}
use idp_mgmt_operator.Api.Action.{ok}
use idp_mgmt_operator.Api.Identity.{StrategyType}
use idp_mgmt_operator.Api.Objects.{Placement, PlacementSpec}
use idp_mgmt_operator.Strategy.Selectors.{
  backplane_placement_strategy, hypershift_placement_strategy,
}
use idp_mgmt_operator.Strategy.Reconcile.{enrich, found_or_new}

-- The parts of a specification beside the predicates.
abbrev pub SpecIsLike : PlacementSpec → PlacementSpec → Type 0
SpecIsLike new old =
    (new.cluster_sets ≡ old.cluster_sets) × (new.number_of_clusters ≡ old.number_of_clusters)

enrich-keeps :
    (t : StrategyType) (text : String) (placement pl enriched : Placement)
    → enrich t text placement pl ≡ ok enriched
    → SpecIsLike enriched.spec pl.spec × (enriched.meta ≡ pl.meta)
unfolding enrich backplane_placement_strategy hypershift_placement_strategy
enrich-keeps StrategyType.backplane text placement pl enriched h = ((cc, cc), cc)
enrich-keeps StrategyType.hypershift text placement pl enriched h = ((cc, cc), cc)
enrich-keeps (StrategyType.other t) text placement pl enriched h = absurd (cc)

-- A new placement of a strategy takes the cluster sets and the number of clusters of the user's
-- placement; one that exists keeps its own, so that a later change of the user's placement in these
-- does not reach it.
pub enriched_spec :
    (t : StrategyType) (text name namespace : String) (placement pl new old : Placement)
    → enrich t text placement (found_or_new none name namespace placement).0 ≡ ok new
    → enrich t text placement (found_or_new (some pl) name namespace placement).0 ≡ ok old
    → SpecIsLike new.spec placement.spec × SpecIsLike old.spec pl.spec
unfolding found_or_new
enriched_spec t text name namespace placement pl new old h h' =
    ((enrich-keeps t text placement _ new h).0, (enrich-keeps t text placement _ old h').0)
