-- ===== src/Api/Client.antt =====
-- The API server and the third-party helpers, as parameters. `W` is the world of API objects, of
-- which the code knows only what the client shows it. A write returns the object that the server
-- answers with.
use idp_mgmt_operator.Base.{String, Option, none, some, List}
use idp_mgmt_operator.Api.Meta.{Labels, OwnerReference, ObjectMeta, ObjectKey, Condition}
use idp_mgmt_operator.Api.Identity.{AuthRealm, Strategy, StrategyType, ClusterOAuth}
use idp_mgmt_operator.Api.Objects.{
  Placement, PlacementDecision, ManagedCluster, Secret, DexClient, Bare,
}
use idp_mgmt_operator.Api.Dex.{DexServer}
use idp_mgmt_operator.Api.Action.{Result, Action}

-- `client.ListOptions`: a namespace (all of them if there is none) and labels to match.
pub record ListOptions : Type 0 where
  pub namespace : Option String
  pub matching_labels : Labels

-- `client.Client` at one kind of objects.
pub record Resource (W A : Type 0) : Type 0 where
  pub get : ObjectKey → W → Result A
  pub list : ListOptions → W → Result (List A)
  pub create : A → Action W A
  pub update : A → Action W A
  pub delete : A → Action W (Unit {0})
  -- `Status().Update`
  pub update_status : A → Action W A
  -- `Status().Patch(obj, MergeFrom(base))`: the base, then the object
  pub patch_status : A → A → Action W A

-- `url.URL`, the parts that are used; the host may carry a port.
pub record Url : Type 0 where
  pub scheme : String
  pub host : String

-- The parts of `ldaputil.LDAPURL` that are used.
pub data LdapScope : Type 0 where
  base_object single_level whole_subtree : LdapScope

pub record LdapUrl : Type 0 where
  pub scheme : String
  pub host : String
  pub base_dn : String
  pub query_attribute : String
  pub scope : LdapScope
  pub filter : String

pub record Env (W : Type 0) : Type 0 where
  pub auth_realms : Resource W AuthRealm
  pub strategies : Resource W Strategy
  pub cluster_oauths : Resource W ClusterOAuth
  pub placements : Resource W Placement
  pub placement_decisions : Resource W PlacementDecision
  pub managed_clusters : Resource W ManagedCluster
  pub secrets : Resource W Secret
  pub dex_clients : Resource W DexClient
  pub dex_servers : Resource W DexServer
  pub namespaces : Resource W Bare
  pub cluster_role_bindings : Resource W Bare
  pub cluster_roles : Resource W Bare
  -- `Status.APIServerURL` of the Infrastructure named "cluster"
  pub api_server_url : W → Result String
  -- `controllerutil.AddFinalizer`, `RemoveFinalizer`
  pub add_finalizer : List String → String → List String
  pub remove_finalizer : List String → String → List String
  -- `controllerutil.SetControllerReference`, `SetOwnerReference`: the kind and the metadata of the
  -- owner, then the references of the object
  pub set_controller_reference :
      String → ObjectMeta → List OwnerReference → Result (List OwnerReference)
  pub set_owner_reference : String → ObjectMeta → List OwnerReference → Result (List OwnerReference)
  -- `meta.SetStatusCondition`
  pub set_status_condition : List Condition → Condition → List Condition
  -- `url.Parse`, and `net.SplitHostPort`, which gives the host and the port
  pub parse_url : String → Result Url
  pub split_host_port : String → Result (String × String)
  -- `ldaputil.ParseURL`
  pub parse_ldap_url : String → Result LdapUrl
  -- `string(t)`: the texts of the strategy types, and the text of the name that a condition has,
  -- are constants of the client API; so is the type of a realm that dex serves
  pub strategy_type_text : StrategyType → String
  pub strategy_applied : String
  pub authrealm_applied : String
  pub auth_proxy_dex : String
  -- `clusterv1alpha1.PlacementLabel`
  pub placement_label : String

-- `client.InNamespace(namespace)` alone, and with labels.
abbrev pub in_namespace : String → ListOptions
in_namespace namespace = record { namespace = some namespace; matching_labels = List.[] }

abbrev pub in_namespace_with : String → Labels → ListOptions
in_namespace_with namespace labels = record { namespace = some namespace; matching_labels = labels }

-- `client.List` without options.
abbrev pub all_namespaces : ListOptions
all_namespaces = record { namespace = none; matching_labels = List.[] }
