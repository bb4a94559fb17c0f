-- ===== src/Tests/Strategy.antt =====
-- The reconciler of a strategy at concrete objects.
use idp_mgmt_operator.Base.{
  String, Bool, true, false, not, ◌&&◌, ◌||◌, Option, none, some, List, [], ◌∷◌, ◌==◌, ◌≡◌, refl,
  arith, any, length, if◌then◌else◌,
}
use idp_mgmt_operator.Api.Action.{ok}
use idp_mgmt_operator.Api.Meta.{OwnerReference, Labels, new_meta, lookup}
use idp_mgmt_operator.Api.Identity.{AuthRealm, Strategy, StrategySummary, backplane}
use idp_mgmt_operator.Api.Objects.{
  SelectorOperator, in_values, not_in_values, exists, does_not_exist, Requirement, ClusterSelector,
  Placement,
}
use idp_mgmt_operator.Helpers.Names.{placement_strategy_name}
use idp_mgmt_operator.Helpers.Lookup.{auth_realm_owner_name, get_authrealm_from_strategy}
use idp_mgmt_operator.Strategy.Selectors.{
  hosted_cluster_requirement, not_hosted_cluster_requirement, backplane_placement_strategy,
  hypershift_placement_strategy, add_user_defined_selectors, add_user_defined_selector,
}
use idp_mgmt_operator.Strategy.Owners.{is_last_owner_reference}
use idp_mgmt_operator.Strategy.Report.{new_strategy_summary, with_strategy, set_conditions}
use idp_mgmt_operator.Strategy.Reconcile.{enrich, found_or_new, reconcile_instance}
use idp_mgmt_operator.Strategy.Partition.{
  placement_selects, user_terms, strategy_selects, strategies_cover, strategies_disjoint,
}
use idp_mgmt_operator.Strategy.Release.{Releases, shared_placement_never_last}
use idp_mgmt_operator.Strategy.Summary.{find_strategy, or_new, find_strategy-with_strategy}
use idp_mgmt_operator.Strategy.Lifecycle.{deletion_outcome, deletion_by_placement}
use idp_mgmt_operator.Strategy.Upkeep.{SpecIsLike, enriched_spec}
use idp_mgmt_operator.Tests.Memory.{World, empty_world, server}

-- A cluster as its claims, with requirements read as Kubernetes does.
abbrev is_value : Option String → List String → Bool
is_value none values = false
is_value (some v) values = any (λ x. x == v) values

abbrev is_there : Option String → Bool
is_there none = false
is_there (some v) = true

abbrev by_operator : SelectorOperator → Option String → List String → Bool
by_operator in_values v values = is_value v values
by_operator not_in_values v values = not (is_value v values)
by_operator exists v values = is_there v
by_operator does_not_exist v values = not (is_there v)

abbrev meets : Requirement → Labels → Bool
meets r claims = by_operator r.operator (lookup r.key claims) r.values

abbrev has : String × String → Labels → Bool
has (k, v) labels = is_value (lookup k labels) (v ∷ [])

abbrev hosted : Labels
hosted = ("hostedcluster.hypershift.openshift.io", "true") ∷ ("env", "dev") ∷ []

abbrev dev : ClusterSelector
dev = record {
  label_selector = record { match_labels = ("env", "dev") ∷ []; match_expressions = [] };
  claim_expressions = record { key = "env"; operator = in_values; values = "dev" ∷ [] } ∷ [];
}

abbrev placement_of : List OwnerReference → Placement
placement_of refs = record {
  meta = record (new_meta "placement" "ns") { owner_references = refs };
  spec = record { cluster_sets = "set" ∷ []; number_of_clusters = none; predicates = dev ∷ [] };
  number_of_selected_clusters = 0;
  conditions = [];
}

abbrev pl : Placement
pl = placement_of []

strategy_selects_example :
    (placement_selects has meets meets (backplane_placement_strategy pl pl) hosted ≡ (
      meets not_hosted_cluster_requirement hosted
      && user_terms has meets meets pl.spec.predicates hosted))
    × (placement_selects has meets meets (hypershift_placement_strategy pl pl) hosted ≡ (
        meets hosted_cluster_requirement hosted
        && user_terms has meets meets pl.spec.predicates hosted))
strategy_selects_example = strategy_selects has meets meets pl pl pl hosted

hypershift_selects_hosted :
    placement_selects has meets meets (hypershift_placement_strategy pl pl) hosted ≡ true
unfolding hypershift_placement_strategy add_user_defined_selectors add_user_defined_selector
    hosted_cluster_requirement lookup
hypershift_selects_hosted = refl

hosted_or_not :
    meets not_hosted_cluster_requirement hosted ≡ not (meets hosted_cluster_requirement hosted)
unfolding not_hosted_cluster_requirement hosted_cluster_requirement lookup
hosted_or_not = refl

strategies_disjoint_example :
    (placement_selects has meets meets (backplane_placement_strategy pl pl) hosted
      && placement_selects has meets meets (hypershift_placement_strategy pl pl) hosted)
    ≡ false
strategies_disjoint_example = strategies_disjoint has meets meets pl pl pl hosted hosted_or_not

strategies_cover_example :
    (placement_selects has meets meets (backplane_placement_strategy pl pl) hosted
      || placement_selects has meets meets (hypershift_placement_strategy pl pl) hosted)
    ≡ placement_selects has meets meets pl hosted
strategies_cover_example = strategies_cover has meets meets pl pl pl dev hosted refl hosted_or_not

abbrev owner : String → OwnerReference
owner uid = record { kind = "Strategy"; name = uid; uid = uid }

abbrev two_owners : List OwnerReference
two_owners = owner "uid-1" ∷ owner "uid-2" ∷ []

abbrev strategy : Strategy
strategy = record {
  meta = record (new_meta "realm-backplane" "ns") {
    uid = "uid-2";
    owner_references = record { kind = "AuthRealm"; name = "realm"; uid = "uid-0" } ∷ [];
    deletion_timestamp = some 1;
  };
  type = backplane;
  placement_ref = "placement-backplane";
  conditions = [];
}

abbrev realm : AuthRealm
realm = record {
  meta = new_meta "realm" "ns";
  spec = record {
    type = "";
    route_sub_domain = "my-domain";
    host = "";
    placement_ref = "placement";
    certificates_secret_ref = "";
    identity_providers = [];
    github_load_all_groups = [];
    ldap_group_search = [];
  };
  conditions = [];
  strategies = [];
}

abbrev world : World
world = record empty_world { auth_realms = realm ∷ []; strategies = strategy ∷ [] }

abbrev shared : Placement
shared = placement_of two_owners

shared_placement_never_last_example :
    (pl' : Placement) × Releases server (strategy ∷ strategy ∷ []) shared pl'
    × (length pl'.meta.owner_references ≡ 2)
    × (is_last_owner_reference pl'.meta.owner_references "uid-2" ≡ ok false)
shared_placement_never_last_example =
    shared_placement_never_last server (strategy ∷ strategy ∷ []) shared "uid-2" (omega arith)

realm_is_found : get_authrealm_from_strategy server strategy world ≡ (ok realm, world)
unfolding get_authrealm_from_strategy auth_realm_owner_name
realm_is_found = refl

deletion_by_placement_example :
    reconcile_instance server strategy world
    ≡ deletion_outcome server strategy
        (server.placements.get
          (record {
            name = placement_strategy_name server.strategy_type_text strategy realm;
            namespace = "ns";
          })
          world)
        world
deletion_by_placement_example =
    deletion_by_placement server strategy realm world refl realm_is_found

abbrev summaries : List StrategySummary
summaries = new_strategy_summary "one" ∷ new_strategy_summary "two" ∷ []

find_strategy-with_strategy_example :
    find_strategy "one" (with_strategy "two" (set_conditions []) summaries) ≡ (
      if "two" == "one"
      then some (set_conditions [] (or_new "two" (find_strategy "two" summaries)))
      else find_strategy "one" summaries)
find_strategy-with_strategy_example =
    find_strategy-with_strategy "two" "one" (set_conditions []) summaries (λ s. refl)

abbrev grown : Placement
grown = record pl { spec = record (pl.spec) { cluster_sets = "set" ∷ "new" ∷ [] } }

enriched_new :
    enrich backplane "backplane" grown (found_or_new none "placement-backplane" "ns" grown).0
    ≡ ok (backplane_placement_strategy grown (found_or_new none "placement-backplane" "ns" grown).0)
unfolding enrich
enriched_new = refl

enriched_old :
    enrich backplane "backplane" grown (found_or_new (some pl) "placement-backplane" "ns" grown).0
    ≡ ok (backplane_placement_strategy grown pl)
unfolding enrich found_or_new
enriched_old = refl

enriched_spec_example :
    SpecIsLike
      (backplane_placement_strategy grown
        (found_or_new none "placement-backplane" "ns" grown).0).spec
      grown.spec
    × SpecIsLike (backplane_placement_strategy grown pl).spec pl.spec
enriched_spec_example =
    enriched_spec backplane "backplane" "placement-backplane" "ns" grown pl
      (backplane_placement_strategy grown (found_or_new none "placement-backplane" "ns" grown).0)
      (backplane_placement_strategy grown pl) enriched_new enriched_old
