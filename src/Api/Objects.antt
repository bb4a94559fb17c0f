-- ===== src/Api/Objects.antt =====
-- The objects of other API groups: placements, managed clusters, secrets, dex clients and dex
-- servers, namespaces and roles.
use idp_mgmt_operator.Base.{ℕ, String, Bool, Option, List}
use idp_mgmt_operator.Api.Meta.{Labels, ObjectMeta, Condition, Reference}

pub data SelectorOperator : Type 0 where
  in_values not_in_values exists does_not_exist : SelectorOperator

-- `metav1.LabelSelectorRequirement`
pub record Requirement : Type 0 where
  pub key : String
  pub operator : SelectorOperator
  pub values : List String

pub record LabelSelector : Type 0 where
  pub match_labels : Labels
  pub match_expressions : List Requirement

pub record ClusterSelector : Type 0 where
  pub label_selector : LabelSelector
  pub claim_expressions : List Requirement

pub record PlacementSpec : Type 0 where
  pub cluster_sets : List String
  pub number_of_clusters : Option ℕ
  pub predicates : List ClusterSelector

pub record Placement : Type 0 where
  pub meta : ObjectMeta
  pub spec : PlacementSpec
  pub number_of_selected_clusters : ℕ
  pub conditions : List Condition

-- The clusters that `status.decisions` names.
pub record PlacementDecision : Type 0 where
  pub meta : ObjectMeta
  pub decisions : List String

pub record ManagedCluster : Type 0 where
  pub meta : ObjectMeta
  pub client_config_urls : List String
  pub cluster_claims : List (String × String)

pub record Secret : Type 0 where
  pub meta : ObjectMeta
  pub type : String
  pub contents : List (String × String)

pub record DexClient : Type 0 where
  pub meta : ObjectMeta
  pub public : Bool
  pub client_id : String
  pub client_secret_ref : Reference
  pub redirect_uris : List String
  pub related_objects : List Reference

-- An object of which only the metadata is used: a namespace, a dex server that is deleted, a
-- cluster role or its binding.
pub record Bare : Type 0 where
  pub meta : ObjectMeta
