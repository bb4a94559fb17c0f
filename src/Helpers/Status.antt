-- ===== src/Helpers/Status.antt =====
-- pkg/helpers/conditions.go: merging conditions, and the position of a strategy or a cluster in the
-- status of an AuthRealm. A position of -1 in the source is `none`.
use mathlib.Core.List.{foldl}
use idp_mgmt_operator.Base.{
  ℕ, zero, suc, String, Option, none, some, List, [], ◌∷◌, ◌==◌, if◌then◌else◌,
}
use idp_mgmt_operator.Api.Meta.{Condition}
use idp_mgmt_operator.Api.Identity.{StrategySummary, ClusterStatus}

-- `MergeStatusConditions`, over `meta.SetStatusCondition`
unfoldable pub merge_status_conditions :
    (List Condition → Condition → List Condition) → List Condition → List Condition → List Condition
merge_status_conditions set_status_condition conditions new_conditions =
    foldl set_status_condition conditions new_conditions

abbrev pub next_index : Option ℕ → Option ℕ
next_index none = none
next_index (some i) = some (suc i)

-- The loop of both searches, over the names: `break` at the first that fits.
unfoldable pub index_of_name : String → List String → Option ℕ
index_of_name name [] = none
index_of_name name (n ∷ names) = if n == name then some 0 else next_index (index_of_name name names)

abbrev pub strategy_names : List StrategySummary → List String
strategy_names [] = []
strategy_names (s ∷ ss) = s.name ∷ strategy_names ss

abbrev pub cluster_names : List ClusterStatus → List String
cluster_names [] = []
cluster_names (c ∷ cs) = c.name ∷ cluster_names cs

unfoldable pub get_strategy_status_index : List StrategySummary → String → Option ℕ
unfolding index_of_name
get_strategy_status_index strategies strategy_name =
    index_of_name strategy_name (strategy_names strategies)

unfoldable pub get_cluster_status_index : StrategySummary → String → Option ℕ
unfolding index_of_name
get_cluster_status_index strategy_status cluster_name =
    index_of_name cluster_name (cluster_names strategy_status.clusters)

-- `list[i] = f(list[i])`
unfoldable pub modify_at {ℓ} : {A : Type ℓ} → ℕ → (A → A) → List A → List A
modify_at i f [] = []
modify_at zero f (x ∷ xs) = f x ∷ xs
modify_at (suc i) f (x ∷ xs) = x ∷ modify_at i f xs
