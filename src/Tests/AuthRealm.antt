-- ===== src/Tests/AuthRealm.antt =====
-- The deletion and the connectors of concrete AuthRealms.
use idp_mgmt_operator.Base.{
  inl, ◌⊎◌, ◌==◌, if◌then◌else◌, ℕ, String, Option, none, some, List, [], ◌∷◌, ◌≡◌, ◌≢◌, refl,
  arith, map, split_at, eq_iff,
}
use idp_mgmt_operator.Api.Action.{Error, not_found, Result, ok, err, panic, done, errorf}
use idp_mgmt_operator.Api.Meta.{new_meta}
use idp_mgmt_operator.Api.Identity.{AuthRealm, IdentityProvider, ProviderType, StrategyType}
use idp_mgmt_operator.Api.Dex.{Connector}
use idp_mgmt_operator.Helpers.Status.{index_of_name, modify_at}
use idp_mgmt_operator.Webhook.Domain.{step, is_final, run, domain_regex_matches}
use idp_mgmt_operator.Webhook.Validate.{
  create, AdmissionRequest, allow, Backend, validate_auth_realm, check_teams, check_by_type,
  check_providers, check_sub_domain, check_namespace, after_sub_domain, after_providers,
  validate_create, by_operation, decoded,
}
use idp_mgmt_operator.AuthRealm.Unguarded.{with_providers, admitted_openid_panics}
use idp_mgmt_operator.AuthRealm.Orgs.{
  blank_org, add_org, add_to, gather_parts, gather, orgs_of_teams,
}
use idp_mgmt_operator.AuthRealm.Connectors.{
  create_dex_connectors, connectors_of, connector_of, non_empty, oidc_connector,
}
use idp_mgmt_operator.AuthRealm.DexServer.{
  process_dex_server_deletion, after_dex_clients, delete_servers_and_namespace, delete_dex_servers,
  delete_if_found, delete_found,
}
use idp_mgmt_operator.AuthRealm.Reconcile.{Installer, reconcile_instance}
use idp_mgmt_operator.AuthRealm.Deletion.{
  drop_finalizer, process_authrealm_deletion, delete_strategies, delete_strategy,
  delete_dex_operator, delete_operator_objects, count_served,
}
use idp_mgmt_operator.AuthRealm.Absence.{DexServerIsGone}
use idp_mgmt_operator.AuthRealm.Quiescence.{
  StrategyIsAbsent, OperatorIsSettled, finalizer_is_dropped_last,
}
use idp_mgmt_operator.AuthRealm.Teams.{
  org_names, org_of_team, OrgsAreFresh, orgs_of_distinct_teams, no_org_after_repeat,
}
use idp_mgmt_operator.AuthRealm.Naming.{connectors_follow_providers}
use idp_mgmt_operator.Tests.Memory.{World, empty_world, server}

abbrev openid_provider : String → IdentityProvider
openid_provider name = record {
  name = name;
  mapping_method = "add";
  type = ProviderType.openid;
  github_config = none;
  ldap_config = none;
  openid_config = some (record {
    client_id = "id";
    client_secret = "secret";
    issuer = "https://issuer";
    extra_scopes = [];
    email_claims = [];
    name_claims = [];
    preferred_username_claims = [];
    groups_claims = [];
  });
}

abbrev empty_provider : IdentityProvider
empty_provider = record (openid_provider "empty") { openid_config = none }

abbrev realm_of : Option ℕ → List IdentityProvider → AuthRealm
realm_of deleted idps = record {
  meta = record (new_meta "realm" "ns") {
    deletion_timestamp = deleted;
    finalizers = "authrealm.identitatem.io/cleanup" ∷ [];
  };
  spec = record {
    type = "";
    route_sub_domain = "my-domain";
    host = "";
    placement_ref = "placement";
    certificates_secret_ref = "";
    identity_providers = idps;
    github_load_all_groups = [];
    ldap_group_search = [];
  };
  conditions = [];
  strategies = [];
}

abbrev pub leaving : AuthRealm
leaving = realm_of (some 1) (openid_provider "one" ∷ [])

abbrev world : World
world = record empty_world { auth_realms = leaving ∷ [] }

abbrev pub installer : Installer World
installer = record {
  getenv = λ name. "image";
  apply_directly = λ values files w. (ok tt, w);
  apply_deployments = λ values files w. (ok tt, w);
  apply_crds = λ files w. (ok tt, w);
}

abbrev released : World
released = record empty_world {
  auth_realms = record leaving { meta = record (leaving.meta) { finalizers = [] } } ∷ [];
}

leaving_is_released : reconcile_instance server installer leaving world ≡ (ok done, released)
unfolding reconcile_instance drop_finalizer process_authrealm_deletion process_dex_server_deletion
    after_dex_clients delete_servers_and_namespace delete_dex_servers delete_if_found delete_found
    delete_strategies delete_strategy delete_dex_operator delete_operator_objects count_served
leaving_is_released = refl

finalizer_is_dropped_last_example :
    (drop_finalizer server leaving world ≡ (ok done, released))
    × DexServerIsGone server leaving world
    × StrategyIsAbsent server leaving StrategyType.backplane world
    × StrategyIsAbsent server leaving StrategyType.hypershift world
    × OperatorIsSettled server world
finalizer_is_dropped_last_example =
    finalizer_is_dropped_last server installer leaving world refl leaving_is_released refl

abbrev teams : List String
teams = "one/a" ∷ "two/b" ∷ []

one_is_not_two : ◌≢◌ {A = String} "one" "two"
one_is_not_two = ground (arith, eq_iff "one" "two")

teams_are_fresh : OrgsAreFresh [] teams
unfolding split_at
teams_are_fresh = (refl, tt, (refl, (one_is_not_two, tt), tt))

orgs_of_distinct_teams_example : orgs_of_teams teams ≡ map org_of_team teams
orgs_of_distinct_teams_example = orgs_of_distinct_teams teams teams_are_fresh

one_is_fresh : OrgsAreFresh [] ("one/a" ∷ [])
unfolding split_at
one_is_fresh = (refl, tt, tt)

no_org_after_repeat_example :
    org_names (orgs_of_teams ("one/a" ∷ "one/b" ∷ "two/c" ∷ [])) ≡ "one" ∷ "" ∷ "" ∷ []
unfolding split_at
no_org_after_repeat_example =
    no_org_after_repeat ("one/a" ∷ []) "one/b" ("two/c" ∷ []) one_is_fresh refl (inl refl)

-- Two teams of one organization and one of another: the other organization is lost.
second_org_is_lost :
    orgs_of_teams ("one/a" ∷ "one/b" ∷ "two/c" ∷ [])
    ≡ record { name = "one"; teams = "a" ∷ "b" ∷ [] } ∷ blank_org ∷ blank_org ∷ []
unfolding orgs_of_teams gather gather_parts add_to add_org index_of_name modify_at split_at
second_org_is_lost = refl

abbrev no_ldap : {A : Type 0} → String → Result A
no_ldap s = err (errorf "no LDAP")

abbrev two_providers : AuthRealm
two_providers = realm_of none (openid_provider "one" ∷ openid_provider "two" ∷ [])

abbrev connectors : List Connector
connectors =
    oidc_connector two_providers "https://dex" "one" (record {
      client_id = "id";
      client_secret = "secret";
      issuer = "https://issuer";
      extra_scopes = [];
      email_claims = [];
      name_claims = [];
      preferred_username_claims = [];
      groups_claims = [];
    })
    ∷ oidc_connector two_providers "https://dex" "two" (record {
      client_id = "id";
      client_secret = "secret";
      issuer = "https://issuer";
      extra_scopes = [];
      email_claims = [];
      name_claims = [];
      preferred_username_claims = [];
      groups_claims = [];
    })
    ∷ []

connectors_are_made : create_dex_connectors no_ldap two_providers "https://dex" ≡ ok connectors
unfolding create_dex_connectors connectors_of connector_of non_empty
connectors_are_made = refl

connectors_follow_providers_example :
    (map (λ c. c.name) connectors ≡ "one" ∷ "two" ∷ []) × (connectors ≢ [])
connectors_follow_providers_example =
    connectors_follow_providers no_ldap two_providers "https://dex" connectors connectors_are_made

abbrev backend : Backend
backend = record {
  unmarshal_auth_realm = λ s. ok (
      with_providers (openid_provider "one" ∷ (if s == "old" then [] else empty_provider ∷ []))
        two_providers);
  unmarshal_idp_config = λ s. ok (new_meta "config" "ns");
  parse_ldap_url = no_ldap;
  get_namespace = λ s. err (record { kind = not_found; message = "" });
  list_idp_configs = λ s. ok [];
}

abbrev request : String → AdmissionRequest
request object = record {
  group = "identityconfig.identitatem.io";
  resource = "authrealms";
  operation = create;
  object = object;
  old_object = "";
}

old_is_admitted : validate_auth_realm backend (request "old") ≡ ok allow
unfolding validate_auth_realm decoded by_operation validate_create after_providers after_sub_domain
    check_providers check_by_type check_teams check_sub_domain check_namespace domain_regex_matches
    run step is_final split_at
old_is_admitted = refl

abbrev endangered : AuthRealm
endangered = with_providers (openid_provider "one" ∷ empty_provider ∷ []) two_providers

admitted_openid_panics_example :
    (validate_auth_realm backend (request "new") ≡ ok allow)
    × ((create_dex_connectors no_ldap endangered "https://dex" ≡ panic)
        ⊎ ((e : Error) × (connectors_of no_ldap endangered "https://dex"
                (openid_provider "one" ∷ [])
              ≡ err e)
            × (create_dex_connectors no_ldap endangered "https://dex" ≡ err e)))
admitted_openid_panics_example =
    admitted_openid_panics no_ldap "https://dex" backend (request "old") (request "new")
      two_providers empty_provider (openid_provider "one" ∷ []) [] refl refl refl refl refl refl
      old_is_admitted
