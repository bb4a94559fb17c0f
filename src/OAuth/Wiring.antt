-- ===== src/OAuth/Wiring.antt =====
-- From the placement controller to the cluster: the ClusterOAuth that is created for a cluster, and
-- the OAuth and the secret that are pushed for it.
use idp_mgmt_operator.Base.{String, false, none, some, [], ◌∷◌, ◌≡◌, refl}
use idp_mgmt_operator.Api.Action.{ok, or_not_found, pure, ◌>>◌}
use idp_mgmt_operator.Api.Meta.{key_of}
use idp_mgmt_operator.Api.Identity.{
  AuthRealm, Strategy, ClusterOAuth, IdentityProvider, OpenIdProvider,
}
use idp_mgmt_operator.Api.Objects.{Secret, DexClient}
use idp_mgmt_operator.Api.Client.{Env}
use idp_mgmt_operator.Helpers.Names.{cluster_oauth_name, client_secret_name}
use idp_mgmt_operator.Helpers.Lookup.{get_apps_url}
use idp_mgmt_operator.Placement.Create.{
  object_key, openid_provider, first_mapping_method, reference_to, new_cluster_oauth,
  create_cluster_oauth,
}
use idp_mgmt_operator.OAuth.Aggregate.{
  secret_for, prefix_secret, append_provider, add_providers, add_cluster_oauths,
  aggregate_cluster_oauths,
}

module _ {W : Type 0} (env : Env W) where
  -- The ClusterOAuth as `createClusterOAuth` creates it.
  abbrev created_oauth : AuthRealm → Strategy → String → DexClient → IdentityProvider → ClusterOAuth
  created_oauth auth_realm strategy cluster_name dex_client idp =
      record (new_cluster_oauth env auth_realm cluster_name) {
        oauth = some (idp ∷ []);
        auth_realm_reference =
            reference_to "AuthRealm" auth_realm.meta.name auth_realm.meta.namespace;
        strategy_reference = reference_to "Strategy" strategy.meta.name strategy.meta.namespace;
        dex_client_reference =
            reference_to "DexClient" dex_client.meta.name dex_client.meta.namespace;
      }

  -- The pushed OAuth refers to the pushed secret: if a cluster has no ClusterOAuth of the AuthRealm
  -- yet, the applications' URL and the mapping method can be had, and the dex client refers to a
  -- client secret by its name, then the placement controller creates a ClusterOAuth under the very
  -- key under which it keeps the client secret; and the OAuth that is made of that ClusterOAuth has
  -- one provider, whose secret has the name under which the client secret is sent to the cluster,
  -- whatever the namespace there.
  pub pushed_secret_is_referenced :
      (auth_realm : AuthRealm) (strategy : Strategy)
      (cluster_name target scheme host method : String) (dex_client : DexClient) (secret : Secret)
      (w v : W)
      → or_not_found (
          env.cluster_oauths.get
            (record { name = cluster_oauth_name (object_key auth_realm); namespace = cluster_name })
            w)
        ≡ ok none
      → get_apps_url env false w ≡ (ok (scheme, host), v)
      → first_mapping_method auth_realm.spec.identity_providers ≡ ok method
      → dex_client.client_secret_ref.name ≡ secret.meta.name
      → (c : ClusterOAuth) × (idp : IdentityProvider) × (o : OpenIdProvider) × (create_cluster_oauth
            env auth_realm strategy cluster_name dex_client w
          ≡ (env.cluster_oauths.create c >> pure tt) v)
        × (key_of c.meta ≡ record {
          name = client_secret_name (object_key auth_realm);
          namespace = cluster_name;
        })
        × (aggregate_cluster_oauths (c ∷ [])
            ≡ ok (record { name = "cluster"; identity_providers = idp ∷ [] }))
        × (idp.openid_config ≡ some o)
        × (o.client_secret ≡ (secret_for target c.meta.namespace secret).meta.name)
  unfolding create_cluster_oauth client_secret_name openid_provider aggregate_cluster_oauths
      add_cluster_oauths add_providers prefix_secret append_provider
  pushed_secret_is_referenced auth_realm strategy cluster_name target scheme host method dex_client
        secret w v missing url mapping named =
      let idp = openid_provider auth_realm cluster_name dex_client method scheme host in
      (
        created_oauth auth_realm strategy cluster_name dex_client idp,
        _,
        _,
        rw (missing, url, mapping) refl,
        refl,
        refl,
        refl,
        rw named refl,
      )
