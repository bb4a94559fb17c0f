-- ===== src/OAuth/Aggregate.antt =====
-- controllers/clusteroauth/clusteroauthmgr.go: the OAuth of all ClusterOAuths of a cluster, the
-- config map with the cluster's original OAuth, and the aggregated role.
use idp_mgmt_operator.Base.{
  Bool, false, String, Option, none, some, List, [], ◌∷◌, ◌++◌, if◌then◌else◌,
}
use idp_mgmt_operator.Api.Action.{
  Action, Result, ok, err, panic, pure, read, lift, or_not_found, non_nil, ◌>>=◌,
}
use idp_mgmt_operator.Api.Meta.{ObjectKey, new_meta, is_deleting}
use idp_mgmt_operator.Api.Objects.{Secret}
use idp_mgmt_operator.Api.Identity.{ClusterOAuth, IdentityProvider, OpenIdProvider}
use idp_mgmt_operator.Api.Work.{Hub, ConfigMap, OAuthConfig}
use idp_mgmt_operator.Helpers.Names.{config_map_original_oauth_name, dashed}

abbrev pub original_key : String → ObjectKey
original_key namespace = record { name = config_map_original_oauth_name; namespace = namespace }

-- `newSecret`: the secret of a ClusterOAuth as it is sent to a cluster.
abbrev pub secret_for : String → String → Secret → Secret
secret_for target_namespace namespace secret = record {
  meta = new_meta (dashed namespace secret.meta.name) target_namespace;
  type = secret.type;
  contents = secret.contents;
}

-- Whether the list has one ClusterOAuth, and that one is being deleted.
unfoldable pub is_last_deleting : List ClusterOAuth → Bool
is_last_deleting [] = false
is_last_deleting (c ∷ []) = is_deleting c.meta
is_last_deleting (c ∷ c' ∷ cs) = false

-- The provider with the namespace before the name of its secret; there is none where `OpenID` is
-- nil, which the code dereferences.
unfoldable pub prefix_secret :
    String → IdentityProvider → Option OpenIdProvider → Option IdentityProvider
prefix_secret namespace idp none = none
prefix_secret namespace idp (some o) = some (record idp {
  openid_config = some (record o { client_secret = dashed namespace o.client_secret });
})

unfoldable pub append_provider :
    Option IdentityProvider → List IdentityProvider → Result (List IdentityProvider)
append_provider none idps = panic
append_provider (some idp) idps = ok (idps ++ idp ∷ [])

abbrev pub then_append :
    Result (List IdentityProvider)
    → (List IdentityProvider → Result (List IdentityProvider))
    → Result (List IdentityProvider)
then_append (ok idps) k = k idps
then_append (err e) k = err e
then_append panic k = panic

-- The inner loop, over the providers of one ClusterOAuth; the list so far comes first.
unfoldable pub add_providers :
    String → List IdentityProvider → List IdentityProvider → Result (List IdentityProvider)
add_providers namespace acc [] = ok acc
add_providers namespace acc (idp ∷ idps) =
    then_append (append_provider (prefix_secret namespace idp idp.openid_config) acc)
      λ acc'. add_providers namespace acc' idps

unfoldable pub add_cluster_oauths :
    List IdentityProvider → List ClusterOAuth → Result (List IdentityProvider)
add_cluster_oauths acc [] = ok acc
add_cluster_oauths acc (c ∷ cs) =
    if is_deleting c.meta
    then add_cluster_oauths acc cs
    else then_append (then_append (non_nil c.oauth) λ idps. add_providers c.meta.namespace acc idps)
        λ acc'. add_cluster_oauths acc' cs

abbrev pub single_oauth : Result (List IdentityProvider) → Result OAuthConfig
single_oauth (ok idps) = ok (record { name = "cluster"; identity_providers = idps })
single_oauth (err e) = err e
single_oauth panic = panic

-- `aggregateClusterOAuths`
unfoldable pub aggregate_cluster_oauths : List ClusterOAuth → Result OAuthConfig
aggregate_cluster_oauths cluster_oauths = single_oauth (add_cluster_oauths [] cluster_oauths)

module _ {W : Type 0} (hub : Hub W) where
  -- `getOriginalOAuth`
  unfoldable pub get_original_oauth : ClusterOAuth → Action W ConfigMap
  get_original_oauth cluster_oauth =
      read (hub.config_maps.get (original_key cluster_oauth.meta.namespace))

  unfoldable pub delete_config_map : Option ConfigMap → Action W (Unit {0})
  delete_config_map none = pure tt
  delete_config_map (some cm) = hub.config_maps.delete cm

  -- `deleteOriginalOAuth`
  unfoldable pub delete_original_oauth : String → Action W (Unit {0})
  delete_original_oauth namespace =
      read (λ w. or_not_found (hub.config_maps.get (original_key namespace) w))
      >>= delete_config_map

  -- `generateAggregatedRole`
  unfoldable pub generate_aggregated_role : Action W String
  generate_aggregated_role = do
    aggregated_role_yaml ← lift (hub.asset "rbac/role-aggregated-clusterrole.yaml")
    lift (hub.yaml_to_json aggregated_role_yaml)
