-- ===== src/Helpers/Names.antt =====
-- pkg/helpers/names.go and finilzers.go: the names and labels that tie the objects together.
use Prim.Native.String.{◌++◌}
use idp_mgmt_operator.Base.{String}
use idp_mgmt_operator.Api.Meta.{ObjectKey}
use idp_mgmt_operator.Api.Identity.{AuthRealm, Strategy, StrategyType}

abbrev pub authrealm_finalizer : String
authrealm_finalizer = "authrealm.identitatem.io/cleanup"

abbrev pub cluster_name_label : String
cluster_name_label = "cluster.identitatem.io/name"

abbrev pub strategy_type_label : String
strategy_type_label = "identityprovider.identitatem.io/strategy-type"

abbrev pub hosted_cluster_cluster_claim : String
hosted_cluster_cluster_claim = "hostedcluster.hypershift.openshift.io"

abbrev pub hosting_cluster_annotation : String
hosting_cluster_annotation = "import.open-cluster-management.io/hosting-cluster-name"

abbrev pub placement_strategy_label : String
placement_strategy_label = "auth.identitatem.io/placement-strategy"

abbrev pub oauth_redirect_uris_cluster_claim_name : String
oauth_redirect_uris_cluster_claim_name = "oauthredirecturis.openshift.io"

abbrev pub manifest_work_oauth_name : String
manifest_work_oauth_name = "idp-oauth"

abbrev pub manifest_work_original_oauth_name : String
manifest_work_original_oauth_name = "idp-oauth-original"

abbrev pub managed_cluster_view_oauth_name : String
managed_cluster_view_oauth_name = "oauth-view"

abbrev pub config_map_original_oauth_name : String
config_map_original_oauth_name = "idp-oauth-original"

abbrev pub hypershift_deployment_infra_id_label : String
hypershift_deployment_infra_id_label = "hypershift.openshift.io/infra-id"

abbrev pub hypershift_deployment_force_reconcile_label : String
hypershift_deployment_force_reconcile_label = "hypershift.openshift.io/force-reconcile"

abbrev pub dex_operator_namespace : String
dex_operator_namespace = "idp-mgmt-dex"

abbrev pub dex_server_namespace_prefix : String
dex_server_namespace_prefix = "idp-mgmt"

-- `fmt.Sprintf("%s-%s", a, b)`
abbrev pub dashed : String → String → String
dashed a b = a ++ ("-" ++ b)

unfoldable pub dex_server_namespace : AuthRealm → String
dex_server_namespace auth_realm =
    dashed dex_server_namespace_prefix auth_realm.spec.route_sub_domain

unfoldable pub dex_client_name : ObjectKey → String → String
dex_client_name auth_realm_object_key cluster_name = dashed cluster_name auth_realm_object_key.name

unfoldable pub cluster_oauth_name : ObjectKey → String
cluster_oauth_name auth_realm_object_key =
    dashed auth_realm_object_key.name auth_realm_object_key.namespace

unfoldable pub client_secret_name : ObjectKey → String
unfolding cluster_oauth_name
client_secret_name auth_realm_object_key = cluster_oauth_name auth_realm_object_key

unfoldable pub dex_client_object_key : AuthRealm → String → ObjectKey
unfolding dex_client_name dex_server_namespace
dex_client_object_key auth_realm cluster_name = record {
  name =
      dex_client_name
        (record { name = auth_realm.meta.name; namespace = auth_realm.meta.namespace })
        cluster_name;
  namespace = dex_server_namespace auth_realm;
}

-- The names of strategies take the text of the type, a constant of the client API.
module _ (strategy_type_text : StrategyType → String) where
  unfoldable pub strategy_name : AuthRealm → StrategyType → String
  strategy_name auth_realm t = dashed auth_realm.meta.name (strategy_type_text t)

  unfoldable pub placement_strategy_name : Strategy → AuthRealm → String
  placement_strategy_name strategy auth_realm =
      dashed auth_realm.spec.placement_ref (strategy_type_text strategy.type)
