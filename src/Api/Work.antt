-- ===== src/Api/Work.antt =====
-- The objects through which a cluster gets its OAuth configuration: manifest works, views of a
-- managed cluster, config maps and hypershift deployments; their clients, and the third-party
-- helpers that only their controllers call.
use idp_mgmt_operator.Base.{String, Option, List}
use idp_mgmt_operator.Api.Meta.{ObjectMeta, Condition}
use idp_mgmt_operator.Api.Identity.{IdentityProvider}
use idp_mgmt_operator.Api.Objects.{Secret}
use idp_mgmt_operator.Api.Action.{Result, Action}
use idp_mgmt_operator.Api.Client.{Resource}

-- `manifestworkv1.ManifestWork`: each manifest is a JSON text; `propagation_policy` is that of the
-- delete option.
pub record ManifestWork : Type 0 where
  pub meta : ObjectMeta
  pub propagation_policy : String
  pub manifests : List String
  pub conditions : List Condition
  pub resource_status : String

-- `viewv1beta1.ManagedClusterView`, with the bytes of `Status.Result`
pub record ManagedClusterView : Type 0 where
  pub meta : ObjectMeta
  pub result : String

pub record ConfigMap : Type 0 where
  pub meta : ObjectMeta
  pub contents : List (String × String)

-- `hypershiftv1alpha1.ClusterConfiguration`: the raw items and the names of the secrets
pub record Configuration : Type 0 where
  pub items : List String
  pub secret_refs : List String

-- `hypershiftdeploymentv1alpha1.HypershiftDeployment`; the configuration is a pointer.
pub record HypershiftDeployment : Type 0 where
  pub meta : ObjectMeta
  pub infra_id : String
  pub configuration : Option Configuration
  pub conditions : List Condition
  pub phase : String

-- `openshiftconfigv1.OAuth`
pub record OAuthConfig : Type 0 where
  pub name : String
  pub identity_providers : List IdentityProvider

-- The clients and third-party helpers of these objects.
pub record Hub (W : Type 0) : Type 0 where
  pub config_maps : Resource W ConfigMap
  pub manifest_works : Resource W ManifestWork
  pub managed_cluster_views : Resource W ManagedClusterView
  pub hypershift_deployments : Resource W HypershiftDeployment
  -- `json.Marshal` of an OAuth and of a Secret
  pub marshal_oauth : OAuthConfig → Result String
  pub marshal_secret : Secret → Result String
  -- `json.Unmarshal` to an OAuth, and its name
  pub unmarshal_oauth_name : String → Result String
  -- `yaml.JSONToYAML`, `yaml.YAMLToJSON`
  pub json_to_yaml : String → Result String
  pub yaml_to_json : String → Result String
  -- `GetScenarioResourcesReader().Asset`: an embedded file
  pub asset : String → Result String
  -- `applier.ApplyCustomResources` of a template file, with the name and namespace for it
  pub apply_custom_resource : String → String → String → Action W (Unit {0})
  -- `metav1.Now().Format(time.RFC3339)`
  pub now : W → String
  -- The constants `ManifestApplied`, `ClusterOAuthApplied` and `DeletePropagationPolicyTypeOrphan`
  pub manifest_applied : String
  pub cluster_oauth_applied : String
  pub orphan : String
