-- ===== src/Tests/Watches.antt =====
-- The watches at concrete objects.
use idp_mgmt_operator.Base.{String, none, [], ◌∷◌, ◌≡◌, ◌↔◌, refl, inl, Any}
use idp_mgmt_operator.Api.Meta.{ObjectKey, new_meta}
use idp_mgmt_operator.Api.Identity.{AuthRealm, Strategy, backplane}
use idp_mgmt_operator.Api.Objects.{Placement}
use idp_mgmt_operator.Helpers.Names.{placement_strategy_name}
use idp_mgmt_operator.Watches.Maps.{listed, strategies_of_placement}
use idp_mgmt_operator.Watches.Reach.{
  IsAmongRequests, RefersTo, strategies_enqueued_iff, realm_placement_reaches_strategy,
}
use idp_mgmt_operator.Api.Client.{in_namespace}
use idp_mgmt_operator.Tests.Memory.{World, empty_world, server}

abbrev placement : String → Placement
placement name = record {
  meta = new_meta name "ns";
  spec = record { cluster_sets = []; number_of_clusters = none; predicates = [] };
  number_of_selected_clusters = 0;
  conditions = [];
}

abbrev strategy : Strategy
strategy = record {
  meta = new_meta "realm-backplane" "ns";
  type = backplane;
  placement_ref = "placement-backplane";
  conditions = [];
}

abbrev realm : AuthRealm
realm = record {
  meta = new_meta "realm" "ns";
  spec = record {
    type = "";
    route_sub_domain = "my-domain";
    host = "";
    placement_ref = "placement";
    certificates_secret_ref = "";
    identity_providers = [];
    github_load_all_groups = [];
    ldap_group_search = [];
  };
  conditions = [];
  strategies = [];
}

abbrev world : World
world = record empty_world {
  strategies = strategy ∷ [];
  placements = placement "placement" ∷ placement "placement-backplane" ∷ [];
}

abbrev key : String → ObjectKey
key name = record { name = name; namespace = "ns" }

strategies_enqueued_iff_example :
    IsAmongRequests
      (key "realm-backplane")
      (strategies_of_placement server (placement "placement") world)
    ↔ Any
        (RefersTo server (placement "placement") (key "realm-backplane"))
        (listed (server.strategies.list (in_namespace "ns") world))
strategies_enqueued_iff_example =
    strategies_enqueued_iff server (placement "placement") (key "realm-backplane") world

reference_is_derived :
    strategy.placement_ref ≡ placement_strategy_name server.strategy_type_text strategy realm
unfolding placement_strategy_name
reference_is_derived = refl

realm_placement_reaches_strategy_example :
    IsAmongRequests
      (key "realm-backplane")
      (strategies_of_placement server (placement "placement") world)
realm_placement_reaches_strategy_example =
    realm_placement_reaches_strategy server realm strategy (placement "placement") (strategy ∷ [])
      world refl (inl refl) refl reference_is_derived
