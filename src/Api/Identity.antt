-- ===== src/Api/Identity.antt =====
-- The objects of identityconfig.identitatem.io: AuthRealm, Strategy and ClusterOAuth, and the
-- identity providers of config.openshift.io in them. Pointers are `Option`.
use idp_mgmt_operator.Base.{ℕ, String, Bool, Option, List}
use idp_mgmt_operator.Api.Meta.{ObjectMeta, Condition, Reference}

pub data ProviderType : Type 0 where
  github ldap openid : ProviderType
  other : String → ProviderType

pub record GitHubProvider : Type 0 where
  pub client_id : String
  pub client_secret : String
  pub organizations : List String
  pub teams : List String

pub record LdapProvider : Type 0 where
  pub url : String
  pub bind_dn : String
  pub bind_password : String
  pub insecure : Bool
  pub ca : String
  pub id_attributes : List String
  pub email_attributes : List String
  pub name_attributes : List String

pub record OpenIdProvider : Type 0 where
  pub client_id : String
  pub client_secret : String
  pub issuer : String
  pub extra_scopes : List String
  pub email_claims : List String
  pub name_claims : List String
  pub preferred_username_claims : List String
  pub groups_claims : List String

pub record IdentityProvider : Type 0 where
  pub name : String
  pub mapping_method : String
  pub type : ProviderType
  pub github_config : Option GitHubProvider
  pub ldap_config : Option LdapProvider
  pub openid_config : Option OpenIdProvider

pub data StrategyType : Type 0 where
  backplane hypershift : StrategyType
  other : String → StrategyType

pub record AuthRealmSpec : Type 0 where
  pub type : String
  pub route_sub_domain : String
  pub host : String
  pub placement_ref : String
  pub certificates_secret_ref : String
  pub identity_providers : List IdentityProvider
  pub github_load_all_groups : List (String × Bool)
  pub ldap_group_search : List (String × String)

pub record WorkStatus : Type 0 where
  pub name : String
  pub conditions : List Condition
  pub resource_status : String

pub record ClusterOAuthStatus : Type 0 where
  pub name : String
  pub conditions : List Condition

pub record DeploymentStatus : Type 0 where
  pub name : String
  pub conditions : List Condition
  pub phase : String

pub record ClusterStatus : Type 0 where
  pub name : String
  pub cluster_oauth : ClusterOAuthStatus
  pub manifest_work : WorkStatus
  pub hypershift_deployment : DeploymentStatus

pub record PlacementSummary : Type 0 where
  pub name : String
  pub number_of_selected_clusters : ℕ
  pub conditions : List Condition

pub record StrategySummary : Type 0 where
  pub name : String
  pub conditions : List Condition
  pub placement : PlacementSummary
  pub clusters : List ClusterStatus

pub record AuthRealm : Type 0 where
  pub meta : ObjectMeta
  pub spec : AuthRealmSpec
  pub conditions : List Condition
  pub strategies : List StrategySummary

pub record Strategy : Type 0 where
  pub meta : ObjectMeta
  pub type : StrategyType
  pub placement_ref : String
  pub conditions : List Condition

-- `oauth` is the pointer `Spec.OAuth`, with the providers of the OAuth that it points to.
pub record ClusterOAuth : Type 0 where
  pub meta : ObjectMeta
  pub oauth : Option (List IdentityProvider)
  pub auth_realm_reference : Reference
  pub strategy_reference : Reference
  pub dex_client_reference : Reference
  pub conditions : List Condition
