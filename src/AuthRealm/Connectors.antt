-- ===== src/AuthRealm/Connectors.antt =====
-- `createDexConnectors` of controllers/authrealm/dex.go.
use Prim.Native.String.{◌++◌}
use idp_mgmt_operator.Base.{
  String, Bool, false, not, Option, none, some, List, [], ◌∷◌, ◌==◌, map, if◌then◌else◌,
}
use idp_mgmt_operator.Api.Action.{Result, ok, err, panic, non_nil, errorf}
use idp_mgmt_operator.Api.Meta.{Reference, lookup, value_or_empty}
use idp_mgmt_operator.Api.Identity.{
  AuthRealm, IdentityProvider, ProviderType, GitHubProvider, LdapProvider, OpenIdProvider,
}
use idp_mgmt_operator.Api.Dex.{Org, GitHubConfig, ConnectorConfig, Connector}
use idp_mgmt_operator.Api.Client.{LdapUrl, LdapScope, base_object, single_level, whole_subtree}
use idp_mgmt_operator.AuthRealm.Orgs.{blank_org, orgs_of_teams}

abbrev pub secret_ref : String → String → Reference
secret_ref name namespace = record { kind = ""; name = name; namespace = namespace }

abbrev pub is_true : Option Bool → Bool
is_true none = false
is_true (some b) = b

-- `c.GitHub.Orgs` by the organizations, then by the teams, which takes its place.
abbrev pub org_named : String → Org
org_named name = record blank_org { name = name }

unfoldable pub github_connector : AuthRealm → String → String → GitHubProvider → Connector
github_connector auth_realm issuer name github =
    let c : GitHubConfig = record {
      client_id = github.client_id;
      client_secret_ref = secret_ref github.client_secret auth_realm.meta.namespace;
      redirect_uri = issuer ++ "/callback";
      load_all_groups = is_true (lookup name auth_realm.spec.github_load_all_groups);
      orgs = map org_named github.organizations;
    } in
    record {
      name = name;
      config = ConnectorConfig.github (record c { orgs = orgs_of_teams github.teams });
    }

-- `xs[0]`
abbrev pub first_of_list : List String → Result String
first_of_list [] = panic
first_of_list (x ∷ xs) = ok x

abbrev pub first_or_empty : List String → String
first_or_empty [] = ""
first_or_empty (x ∷ xs) = x

unfoldable pub scope_text : LdapScope → String
scope_text single_level = "one"
scope_text whole_subtree = "sub"
scope_text base_object = ""

infixl 5 ◌>>=◌
abbrev pub ◌>>=◌ : {X Y : Type 0} → Result X → (X → Result Y) → Result Y
panic >>= next = panic
err e >>= next = err e
ok x >>= next = next x

-- The switch on the scheme: `StartTLS` for "ldap", unless the provider is insecure.
unfoldable pub start_tls : String → Bool → Bool
start_tls scheme insecure = if scheme == "ldap" then not insecure else false

unfoldable pub ldap_connector : AuthRealm → String → LdapProvider → LdapUrl → Result Connector
ldap_connector auth_realm name ldap url = do
  id_attr ← first_of_list ldap.id_attributes
  email_attr ← first_of_list ldap.email_attributes
  name_attr ← first_of_list ldap.name_attributes
  ok (record {
    name = name;
    config = ConnectorConfig.ldap (record {
      host = url.host;
      bind_dn = ldap.bind_dn;
      bind_pw_ref = secret_ref ldap.bind_password auth_realm.meta.namespace;
      insecure_no_ssl = false;
      start_tls = start_tls url.scheme ldap.insecure;
      root_ca_ref = secret_ref ldap.ca auth_realm.meta.namespace;
      user_search = record {
        base_dn = url.base_dn;
        filter = url.filter;
        scope = scope_text url.scope;
        username = url.query_attribute;
        id_attr = id_attr;
        email_attr = email_attr;
        name_attr = name_attr;
      };
      group_search = value_or_empty (lookup name auth_realm.spec.ldap_group_search);
    });
  })

unfoldable pub oidc_connector : AuthRealm → String → String → OpenIdProvider → Connector
oidc_connector auth_realm issuer name openid = record {
  name = name;
  config = ConnectorConfig.oidc (record {
    issuer = openid.issuer;
    client_id = openid.client_id;
    client_secret_ref = secret_ref openid.client_secret auth_realm.meta.namespace;
    redirect_uri = issuer ++ "/callback";
    claim_mapping = record {
      preferred_username = first_or_empty openid.preferred_username_claims;
      name = first_or_empty openid.name_claims;
      email = first_or_empty openid.email_claims;
    };
  });
}

abbrev pub ldap_url_error : {A : Type 0} → Result A → Result A
ldap_url_error (ok a) = ok a
ldap_url_error (err e) = err (errorf ("Error parsing LDAP URL: " ++ e.message))
ldap_url_error panic = panic

module _ (parse_ldap_url : String → Result LdapUrl) (auth_realm : AuthRealm) (issuer : String) where
  -- The body of the loop, by the type of the provider.
  unfoldable pub connector_of : ProviderType → IdentityProvider → Result Connector
  connector_of ProviderType.github idp = do
    github ← non_nil idp.github_config
    ok (github_connector auth_realm issuer idp.name github)
  connector_of ProviderType.ldap idp = do
    ldap ← non_nil idp.ldap_config
    url ← ldap_url_error (parse_ldap_url ldap.url)
    ldap_connector auth_realm idp.name ldap url
  connector_of ProviderType.openid idp = do
    openid ← non_nil idp.openid_config
    ok (oidc_connector auth_realm issuer idp.name openid)
  connector_of (ProviderType.other t) idp = err (errorf ("unsupported provider type " ++ t))

  unfoldable pub connectors_of : List IdentityProvider → Result (List Connector)
  connectors_of [] = ok []
  connectors_of (idp ∷ idps) =
      let rest = connectors_of idps in connector_of idp.type idp >>= λ c. rest >>= λ cs. ok (c ∷ cs)

  unfoldable pub non_empty : List Connector → Result (List Connector)
  non_empty [] = err (
      errorf (
        "no identityProvider defined in "
        ++ (auth_realm.meta.name ++ ("/" ++ auth_realm.meta.name))))
  non_empty (c ∷ cs) = ok (c ∷ cs)

  unfoldable pub create_dex_connectors : Result (List Connector)
  create_dex_connectors = connectors_of auth_realm.spec.identity_providers >>= non_empty
