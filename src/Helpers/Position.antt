-- ===== src/Helpers/Position.antt =====
-- The two searches with which the status updates of a cluster begin (`GetStrategyStatusIndex`, then
-- `GetClusterStatusIndex` in that strategy), and the assignment to the entry that they find.
use Prim.Native.String.{◌++◌}
use idp_mgmt_operator.Base.{ℕ, String, Option, none, some, List, [], get_elem?}
use idp_mgmt_operator.Api.Identity.{
  WorkStatus, DeploymentStatus, ClusterStatus, StrategySummary, ClusterOAuth,
}
use idp_mgmt_operator.Api.Action.{Error, errorf}
use idp_mgmt_operator.Helpers.Status.{
  get_strategy_status_index, get_cluster_status_index, modify_at,
}

-- An index of -1 has a constructor of its own.
pub data Position : Type 0 where
  no_strategy : Position
  no_cluster : ℕ → Position
  at : ℕ → ℕ → Position

abbrev pub position_at : ℕ → Option ℕ → Position
position_at i none = no_cluster i
position_at i (some j) = at i j

-- The strategy is there whenever its index has been found.
unfoldable pub position_in : ℕ → String → Option StrategySummary → Position
position_in i cluster_name none = no_cluster i
position_in i cluster_name (some s) = position_at i (get_cluster_status_index s cluster_name)

unfoldable pub position_of : List StrategySummary → String → Option ℕ → Position
position_of strategies cluster_name none = no_strategy
position_of strategies cluster_name (some i) = position_in i cluster_name (get_elem? strategies i)

unfoldable pub cluster_position : List StrategySummary → String → String → Position
cluster_position strategies strategy_name cluster_name =
    position_of strategies cluster_name (get_strategy_status_index strategies strategy_name)

-- `strategies[i].Clusters = f(strategies[i].Clusters)`
abbrev pub modify_clusters :
    ℕ → (List ClusterStatus → List ClusterStatus) → List StrategySummary → List StrategySummary
modify_clusters i f = modify_at i (λ s. record s { clusters = f s.clusters })

abbrev pub no_work : WorkStatus
no_work = record { name = ""; conditions = []; resource_status = "" }

abbrev pub no_deployment : DeploymentStatus
no_deployment = record { name = ""; conditions = []; phase = "" }

-- `AuthRealmClusterStatus{Name: name}`
abbrev pub new_cluster_status : String → ClusterStatus
new_cluster_status name = record {
  name = name;
  cluster_oauth = record { name = ""; conditions = [] };
  manifest_work = no_work;
  hypershift_deployment = no_deployment;
}

-- The errors of an index of -1.
abbrev pub strategy_not_found : ClusterOAuth → Error
strategy_not_found c = errorf ("strategy " ++ (c.strategy_reference.name ++ " not found"))

abbrev pub cluster_not_found : ClusterOAuth → Error
cluster_not_found c = errorf ("cluster " ++ (c.meta.namespace ++ " not found"))
