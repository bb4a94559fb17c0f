-- ===== src/Placement/Create.antt =====
-- `createClientSecret`, `createClusterOAuth` (controllers/placement/common.go), `createDexClient`
-- and `createConfigs` (dex.go).
use Prim.Native.String.{◌++◌}
use idp_mgmt_operator.Base.{
  String, Bool, true, false, Option, none, some, List, [], ◌∷◌, ◌==◌, not, split_at, if◌then◌else◌,
}
use idp_mgmt_operator.Api.Action.{
  Action, Result, ok, err, panic, errorf, pure, fail, read, lift, or_not_found, non_nil, for_each,
  ◌>>=◌,
}
use idp_mgmt_operator.Api.Meta.{ObjectKey, Reference, new_meta, lookup, value_or_empty, is_deleting}
use idp_mgmt_operator.Api.Identity.{
  AuthRealm, Strategy, ClusterOAuth, IdentityProvider, ProviderType,
}
use idp_mgmt_operator.Api.Objects.{Placement, PlacementDecision, ManagedCluster, Secret, DexClient}
use idp_mgmt_operator.Api.Client.{Env}
use idp_mgmt_operator.Helpers.Names.{
  cluster_name_label, strategy_type_label, oauth_redirect_uris_cluster_claim_name,
  client_secret_name, cluster_oauth_name, dex_client_name, dex_client_object_key,
  dex_server_namespace,
}
use idp_mgmt_operator.Helpers.Lookup.{get_apps_url, is_hosted_cluster, replace_first}
use idp_mgmt_operator.Placement.Decisions.{list_placement_decisions}

abbrev pub object_key : AuthRealm → ObjectKey
object_key auth_realm = record {
  name = auth_realm.meta.name;
  namespace = auth_realm.meta.namespace;
}

-- `strings.Split(s, ",")[0]`
abbrev pub first_part : List String → String
first_part [] = ""
first_part (p ∷ ps) = p

abbrev pub first_url : List String → String
first_url [] = ""
first_url (u ∷ us) = u

-- A write of an object that is new, or that was there.
abbrev pub save : {W A : Type 0} → (A → Action W A) → (A → Action W A) → Bool → A → Action W A
save update create true a = update a
save update create false a = create a

-- What `Get` has found and whether it is there, or the object to create.
abbrev pub found_or : {A : Type 0} → Option A → A → A × Bool
found_or (some a) new = (a, true)
found_or none new = (new, false)

-- The single identity provider of the cluster's OAuth: the dex client under the AuthRealm's issuer.
unfoldable pub openid_provider :
    AuthRealm → String → DexClient → String → String → String → IdentityProvider
openid_provider auth_realm cluster_name dex_client mapping_method scheme host = record {
  name = auth_realm.meta.name;
  mapping_method = mapping_method;
  type = ProviderType.openid;
  github_config = none;
  ldap_config = none;
  openid_config = some (record {
    client_id = dex_client_name (object_key auth_realm) cluster_name;
    client_secret = dex_client.client_secret_ref.name;
    issuer = scheme ++ ("://" ++ (auth_realm.spec.route_sub_domain ++ ("." ++ host)));
    extra_scopes = "email" ∷ "profile" ∷ "groups" ∷ "federated:id" ∷ "offline_access" ∷ [];
    email_claims = "email" ∷ [];
    name_claims = "name" ∷ [];
    preferred_username_claims = "preferred_username" ∷ "email" ∷ "name" ∷ [];
    groups_claims = "groups" ∷ [];
  });
}

-- `list[0] = x`, which panics on an empty list
abbrev pub set_first : {A : Type 0} → A → List A → Result (List A)
set_first x [] = panic
set_first x (y ∷ ys) = ok (x ∷ ys)

-- `authRealm.Spec.IdentityProviders[0].MappingMethod`
abbrev pub first_mapping_method : List IdentityProvider → Result String
first_mapping_method [] = panic
first_mapping_method (idp ∷ idps) = ok idp.mapping_method

-- `make([]IdentityProvider, 1)`
abbrev pub blank_provider : IdentityProvider
blank_provider = record {
  name = "";
  mapping_method = "";
  type = ProviderType.other "";
  github_config = none;
  ldap_config = none;
  openid_config = none;
}

abbrev pub reference_to : String → String → String → Reference
reference_to kind name namespace = record { kind = kind; name = name; namespace = namespace }

module _ {W : Type 0} (env : Env W) where
  -- `createClientSecret`, where `random` is what `RandomString(32, RandomTypePassword)` gives for the
  -- secret of a key
  unfoldable pub create_client_secret : (ObjectKey → String) → String → AuthRealm → Action W Secret
  create_client_secret random cluster_name auth_realm = do
    let name = client_secret_name (object_key auth_realm)
    found ←
        read
          (λ w. or_not_found (env.secrets.get (record { name = name; namespace = cluster_name }) w))
    elim found [
      | some secret ↦ pure secret
      | none ↦ env.secrets.create (record {
        meta = new_meta name cluster_name;
        type = "";
        contents = ("clientSecret", random (record { name = name; namespace = cluster_name })) ∷ [];
      })
    ]

  -- The redirect URI from the claim of the managed cluster.
  unfoldable pub redirect_uri_of_claim : AuthRealm → String → Result String
  redirect_uri_of_claim auth_realm claim = elim (env.parse_url (first_part (split_at b',' claim))) [
    | ok u ↦ ok (u.scheme ++ ("://" ++ (u.host ++ ("/oauth2callback/" ++ auth_realm.meta.name))))
    | err e ↦ err e
    | panic ↦ panic
  ]

  -- The redirect URI from the URL of the cluster's API server.
  unfoldable pub redirect_uri_of_api : AuthRealm → String → Action W String
  redirect_uri_of_api auth_realm api_url = do
    u ← lift (env.parse_url api_url)
    (host, port) ← lift (env.split_host_port u.host)
    pure (
        u.scheme
        ++ ("://oauth-openshift."
            ++ (replace_first host "api" "apps" ++ ("/oauth2callback/" ++ auth_realm.meta.name))))

  -- The choice between the two in `createDexClient`.
  unfoldable pub redirect_uri : AuthRealm → String → ManagedCluster → Action W String
  redirect_uri auth_realm cluster_name mc = do
    let claim = value_or_empty (lookup oauth_redirect_uris_cluster_claim_name mc.cluster_claims)
    let api_url = first_url mc.client_config_urls
    if not (claim == "")
        then lift (redirect_uri_of_claim auth_realm claim)
        else if is_hosted_cluster mc
        then fail
            (errorf ("unable to find the redirectURI for hypershift cluster " ++ mc.meta.name))
        else if api_url == ""
        then fail (errorf ("api url not found for cluster " ++ cluster_name))
        else redirect_uri_of_api auth_realm api_url

  abbrev new_dex_client : AuthRealm → Strategy → String → DexClient
  new_dex_client auth_realm strategy cluster_name = record {
    meta =
        record (new_meta (dex_client_name (object_key auth_realm) cluster_name)
          (dex_server_namespace auth_realm)) {
            labels =
                (cluster_name_label, cluster_name)
                ∷ (strategy_type_label, env.strategy_type_text strategy.type)
                ∷ [];
          };
    public = false;
    client_id = "";
    client_secret_ref = reference_to "" "" "";
    redirect_uris = [];
    related_objects = [];
  }

  -- The end of `createDexClient`: an update, or a creation that names the decision in the status.
  unfoldable pub save_dex_client : PlacementDecision → Bool → DexClient → Action W DexClient
  save_dex_client placement_decision true dex_client = env.dex_clients.update dex_client
  save_dex_client placement_decision false dex_client = do
    created ← env.dex_clients.create dex_client
    env.dex_clients.update_status (record created {
      related_objects =
          reference_to "PlacementDecision" placement_decision.meta.name
            placement_decision.meta.namespace
          ∷ [];
    })

  -- `createDexClient`
  unfoldable pub create_dex_client :
      AuthRealm → PlacementDecision → Strategy → String → Secret → Action W DexClient
  create_dex_client auth_realm placement_decision strategy cluster_name client_secret = do
    found ←
        read (λ w.
          or_not_found (env.dex_clients.get (dex_client_object_key auth_realm cluster_name) w))
    let (dex_client, exists) = found_or found (new_dex_client auth_realm strategy cluster_name)
    mc ← read (env.managed_clusters.get (record { name = cluster_name; namespace = "" }))
    uri ← redirect_uri auth_realm cluster_name mc
    save_dex_client placement_decision exists (record dex_client {
      client_id = dex_client_name (object_key auth_realm) cluster_name;
      client_secret_ref = reference_to "" client_secret.meta.name client_secret.meta.namespace;
      redirect_uris = uri ∷ [];
    })

  abbrev pub new_cluster_oauth : AuthRealm → String → ClusterOAuth
  new_cluster_oauth auth_realm cluster_name = record {
    meta = new_meta (cluster_oauth_name (object_key auth_realm)) cluster_name;
    oauth = some (blank_provider ∷ []);
    auth_realm_reference = reference_to "" "" "";
    strategy_reference = reference_to "" "" "";
    dex_client_reference = reference_to "" "" "";
    conditions = [];
  }

  -- `createClusterOAuth`
  unfoldable pub create_cluster_oauth :
      AuthRealm → Strategy → String → DexClient → Action W (Unit {0})
  create_cluster_oauth auth_realm strategy cluster_name dex_client = do
    let key : ObjectKey = record {
      name = cluster_oauth_name (object_key auth_realm);
      namespace = cluster_name;
    }
    found ← read (λ w. or_not_found (env.cluster_oauths.get key w))
    let (cluster_oauth, exists) = found_or found (new_cluster_oauth auth_realm cluster_name)
    (scheme, host) ← get_apps_url env false
    mapping_method ← lift (first_mapping_method auth_realm.spec.identity_providers)
    blank ← lift (non_nil cluster_oauth.oauth)
    providers ← lift (
        set_first (openid_provider auth_realm cluster_name dex_client mapping_method scheme host)
          blank)
    saved ← save env.cluster_oauths.update env.cluster_oauths.create exists (record cluster_oauth {
      oauth = some providers;
      auth_realm_reference =
          reference_to "AuthRealm" auth_realm.meta.name auth_realm.meta.namespace;
      strategy_reference = reference_to "Strategy" strategy.meta.name strategy.meta.namespace;
      dex_client_reference =
          reference_to "DexClient" dex_client.meta.name dex_client.meta.namespace;
    })
    pure tt

  -- The body of the loops of `createConfigs`.
  unfoldable pub create_config :
      (ObjectKey → String) → AuthRealm → Strategy → PlacementDecision → String → Action W (Unit {0})
  create_config random auth_realm strategy placement_decision cluster_name = do
    client_secret ← create_client_secret random cluster_name auth_realm
    dex_client ← create_dex_client auth_realm placement_decision strategy cluster_name client_secret
    create_cluster_oauth auth_realm strategy cluster_name dex_client

  unfoldable pub create_decided :
      (ObjectKey → String) → AuthRealm → Strategy → List PlacementDecision → Action W (Unit {0})
  create_decided random auth_realm strategy placement_decisions =
      for_each placement_decisions
        λ d. for_each d.decisions (create_config random auth_realm strategy d)

  -- `createConfigs`
  unfoldable pub create_configs :
      (ObjectKey → String) → AuthRealm → Strategy → Placement → Action W (Unit {0})
  create_configs random auth_realm strategy placement = elim (is_deleting auth_realm.meta) [
    | true ↦ pure tt
    | false ↦ list_placement_decisions env placement >>= create_decided random auth_realm strategy
  ]
