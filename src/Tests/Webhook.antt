-- ===== src/Tests/Webhook.antt =====
-- The webhook at concrete requests.
use idp_mgmt_operator.Base.{
  String, true, none, some, List, [], ◌∷◌, ◌≡◌, ◌↔◌, refl, codes, split_at,
}
use idp_mgmt_operator.Api.Action.{ok, err, errorf}
use idp_mgmt_operator.Api.Meta.{new_meta}
use idp_mgmt_operator.Api.Identity.{AuthRealm, IdentityProvider, ProviderType}
use idp_mgmt_operator.Helpers.Names.{dex_server_namespace}
use idp_mgmt_operator.Webhook.Domain.{step, is_final, run, domain_regex_matches}
use idp_mgmt_operator.Webhook.Validate.{
  Operation, create, update, AdmissionRequest, allow, Backend, validate_auth_realm, check_teams,
  check_by_type, check_providers, check_sub_domain, check_namespace, after_sub_domain,
  after_providers, validate_create, validate_update, by_operation, decoded,
}
use idp_mgmt_operator.Webhook.Labels.{is_dns_label, domain_regex_matches-of_plain}
use idp_mgmt_operator.Webhook.Edits.{update_allowed_iff, start, edit, sub_domain_stays}
use idp_mgmt_operator.Webhook.Admission.{
  ProvidersAreValid, SubDomainIsValid, NamespaceIsFree, create_allowed_iff,
}
use idp_mgmt_operator.Tests.Memory.{missing}

abbrev github_with : List String → IdentityProvider
github_with teams = record {
  name = "github";
  mapping_method = "add";
  type = ProviderType.github;
  github_config =
      some
        (record { client_id = "id"; client_secret = "secret"; organizations = []; teams = teams });
  ldap_config = none;
  openid_config = none;
}

abbrev realm_with : String → List String → AuthRealm
realm_with sub_domain teams = record {
  meta = new_meta "realm" "ns";
  spec = record {
    type = "";
    route_sub_domain = sub_domain;
    host = "";
    placement_ref = "placement";
    certificates_secret_ref = "";
    identity_providers = github_with teams ∷ [];
    github_load_all_groups = [];
    ldap_group_search = [];
  };
  conditions = [];
  strategies = [];
}

-- The text of an object is the sub-domain of a realm with one team.
abbrev backend : Backend
backend = record {
  unmarshal_auth_realm = λ s. ok (realm_with s ("org/team" ∷ []));
  unmarshal_idp_config = λ s. ok (new_meta "config" s);
  parse_ldap_url = λ s. err (errorf "no LDAP");
  get_namespace = λ s. err missing;
  list_idp_configs = λ s. ok [];
}

abbrev request : Operation → AdmissionRequest
request operation = record {
  group = "identityconfig.identitatem.io";
  resource = "authrealms";
  operation = operation;
  object = "my-domain";
  old_object = "my-domain";
}

abbrev realm : AuthRealm
realm = realm_with "my-domain" ("org/team" ∷ [])

create_allowed_iff_example : (validate_auth_realm backend (request create) ≡ ok allow) ↔ (
    ProvidersAreValid backend realm.spec.identity_providers
    × SubDomainIsValid "my-domain"
    × NamespaceIsFree (backend.get_namespace (dex_server_namespace realm)))
create_allowed_iff_example = create_allowed_iff backend (request create) realm refl refl

create_admits : validate_auth_realm backend (request create) ≡ ok allow
unfolding validate_auth_realm decoded by_operation validate_create after_providers after_sub_domain
    check_providers check_by_type check_teams check_sub_domain check_namespace domain_regex_matches
    run step is_final split_at
create_admits = refl

update_allowed_iff_example :
    (validate_auth_realm backend (request update) ≡ ok allow)
    ↔ (realm.spec.route_sub_domain ≡ realm.spec.route_sub_domain)
update_allowed_iff_example = update_allowed_iff backend (request update) realm realm refl refl refl

update_admits : validate_auth_realm backend (request update) ≡ ok allow
unfolding validate_auth_realm decoded by_operation validate_update
update_admits = refl

sub_domain_stays_example :
    (realm.spec.route_sub_domain ≡ realm.spec.route_sub_domain)
    × (dex_server_namespace realm ≡ dex_server_namespace realm)
sub_domain_stays_example =
    sub_domain_stays backend realm realm
      (edit realm (request update) start refl refl refl update_admits)

domain_regex_matches-of_plain_example :
    domain_regex_matches (codes "my-domain") ≡ is_dns_label (codes "my-domain")
domain_regex_matches-of_plain_example = domain_regex_matches-of_plain (codes "my-domain") refl

-- A backslash and any character join two labels.
backslash_joins : domain_regex_matches (codes "a\\.b") ≡ true
unfolding domain_regex_matches run step is_final
backslash_joins = refl
