-- ===== src/Webhook/Validate.antt =====
-- `Validate`, `ValidateAuthRealm` and `ValidateIDPConfig`. JSON decoding, the LDAP URL parser and
-- the API server are parameters; a nil pointer makes the handler panic.
use Prim.Native.String.{◌++◌, len}
use idp_mgmt_operator.Base.{
  ℕ, String, Bool, true, false, not, Option, none, some, List, [], ◌∷◌, ◌==◌, ltb, nat_eq, length,
  codes, split_at, has_suffix, if◌then◌else◌,
}
use idp_mgmt_operator.Api.Action.{Result, ok, err, panic, is_not_found}
use idp_mgmt_operator.Api.Meta.{ObjectMeta}
use idp_mgmt_operator.Api.Identity.{
  AuthRealm, IdentityProvider, ProviderType, GitHubProvider, LdapProvider,
}
use idp_mgmt_operator.Helpers.Names.{dex_server_namespace}
use idp_mgmt_operator.Webhook.Domain.{domain_regex_matches}

pub data Operation : Type 0 where
  create update delete connect : Operation

pub record AdmissionRequest : Type 0 where
  pub group : String
  pub resource : String
  pub operation : Operation
  pub object : String
  pub old_object : String

pub data Reason : Type 0 where
  bad_request forbidden internal_error : Reason

-- `metav1.Status` of a refusal
pub record Refusal : Type 0 where
  pub code : ℕ
  pub reason : Reason
  pub message : String

pub record AdmissionResponse : Type 0 where
  pub allowed : Bool
  pub result : Option Refusal

abbrev pub allow : AdmissionResponse
allow = record { allowed = true; result = none }

abbrev pub deny : ℕ → Reason → String → AdmissionResponse
deny code reason message = record {
  allowed = false;
  result = some (record { code = code; reason = reason; message = message });
}

-- What the webhook calls: `json.Unmarshal` at the two types, `ldaputil.ParseURL`, the namespaces of
-- the cluster and the IDPConfigs of a namespace.
pub record Backend : Type 0 where
  pub unmarshal_auth_realm : String → Result AuthRealm
  pub unmarshal_idp_config : String → Result ObjectMeta
  pub parse_ldap_url : String → Result (Unit {0})
  pub get_namespace : String → Result ObjectMeta
  pub list_idp_configs : String → Result (List ObjectMeta)

abbrev pub group_suffix : String
group_suffix = "identityconfig.identitatem.io"

-- The loop over the teams: the first that is not `<org>/<team>` is refused.
unfoldable pub check_teams : List String → Option AdmissionResponse
check_teams [] = none
check_teams (team ∷ teams) =
    if not (nat_eq (length (split_at b'/' team)) 2)
    then some (deny 403 forbidden "team should be in format <org>/<team>")
    else check_teams teams

abbrev pub insecure_message : String
insecure_message =
    "Identity configuration management operator does not support insecure=true for LDAP identity providers"

abbrev pub ldap_message : String → String
ldap_message text =
    "Error parsing LDAP URL: "
    ++ (text ++ " LDAP URL syntax is <ldap://host:port/basedn?attribute?scope?filter>")

abbrev pub domain_regex : String
domain_regex = "^[a-z0-9]([-a-z0-9]*[a-z0-9])?(\\\\.[a-z0-9]([-a-z0-9]*[a-z0-9])?)*$"

abbrev pub invalid_message : String → String
invalid_message sub_domain =
    "RouteSubDomain \""
    ++ (sub_domain
        ++ ("\" is invalid: a DNS-1123 subdomain must consist of lower case alphanumeric characters, '-' or '.', and must start and end with an alphanumeric character (e.g. 'example', regex used for validation is \""
            ++ (domain_regex ++ "\"")))

unfoldable pub check_ldap : LdapProvider → Result (Unit {0}) → Result (Option AdmissionResponse)
check_ldap ldap (err e) = ok (some (deny 403 forbidden (ldap_message e.message)))
check_ldap ldap (ok _) =
    ok (if ldap.insecure then some (deny 403 forbidden insecure_message) else none)
check_ldap ldap panic = panic

-- The switch on the sub-domain.
unfoldable pub check_sub_domain : String → Option AdmissionResponse
check_sub_domain sub_domain =
    if nat_eq (len sub_domain) 0
    then some (deny 403 forbidden "routeSubDomain is required")
    else if ltb 54 (len sub_domain)
    then some (deny 403 forbidden "routeSubDomain is too long (max 54 characters)")
    else if not (domain_regex_matches (codes sub_domain))
    then some (deny 403 forbidden (invalid_message sub_domain))
    else none

-- The namespace of the dex server is to be free.
unfoldable pub check_namespace : String → Result ObjectMeta → Result AdmissionResponse
check_namespace sub_domain (ok ns) =
    ok (deny 403 forbidden ("RouteSubDomain \"" ++ (sub_domain ++ "\" already in use")))
check_namespace sub_domain (err e) =
    ok (if is_not_found e then allow else deny 403 forbidden e.message)
check_namespace sub_domain panic = panic

unfoldable pub validate_update : AuthRealm → Result AuthRealm → Result AdmissionResponse
validate_update auth_realm (ok old) = ok (
    if auth_realm.spec.route_sub_domain == old.spec.route_sub_domain
    then allow
    else deny 403 forbidden "RouteSubDomain is immutable and cannot be changed")
validate_update auth_realm (err e) = ok (deny 400 bad_request e.message)
validate_update auth_realm panic = panic

unfoldable pub check_idp_configs : Result (List ObjectMeta) → Result AdmissionResponse
check_idp_configs (ok []) = ok allow
check_idp_configs (ok (item ∷ items)) =
    ok (deny 400 forbidden "an idpconfig custom resource already exists in the same namespace")
check_idp_configs (err e) = ok (deny 400 internal_error e.message)
check_idp_configs panic = panic

module _ (backend : Backend) where
  -- The body of the loop over the identity providers: a refusal, or none to go on.
  unfoldable pub check_by_type :
      ProviderType → Option GitHubProvider → Option LdapProvider → Result (Option AdmissionResponse)
  check_by_type ProviderType.github none _ = panic
  check_by_type ProviderType.github (some github) _ = ok (check_teams github.teams)
  check_by_type ProviderType.ldap _ none = panic
  check_by_type ProviderType.ldap _ (some ldap) = check_ldap ldap (backend.parse_ldap_url ldap.url)
  check_by_type ProviderType.openid _ _ = ok none
  check_by_type (ProviderType.other t) _ _ = ok none

  unfoldable pub check_providers : List IdentityProvider → Result (Option AdmissionResponse)
  check_providers [] = ok none
  check_providers (idp ∷ idps) =
      let rest = check_providers idps in
      elim (check_by_type idp.type idp.github_config idp.ldap_config) [
        | ok none ↦ rest
        | ok (some refusal) ↦ ok (some refusal)
        | err e ↦ err e
        | panic ↦ panic
      ]

  unfoldable pub after_sub_domain : AuthRealm → Option AdmissionResponse → Result AdmissionResponse
  after_sub_domain auth_realm (some refusal) = ok refusal
  after_sub_domain auth_realm none =
      check_namespace auth_realm.spec.route_sub_domain
        (backend.get_namespace (dex_server_namespace auth_realm))

  unfoldable pub after_providers :
      AuthRealm → Result (Option AdmissionResponse) → Result AdmissionResponse
  after_providers auth_realm (ok (some refusal)) = ok refusal
  after_providers auth_realm (ok none) =
      after_sub_domain auth_realm (check_sub_domain auth_realm.spec.route_sub_domain)
  after_providers auth_realm (err e) = err e
  after_providers auth_realm panic = panic

  unfoldable pub validate_create : AuthRealm → Result AdmissionResponse
  validate_create auth_realm =
      after_providers auth_realm (check_providers auth_realm.spec.identity_providers)

  unfoldable pub by_operation : Operation → AdmissionRequest → AuthRealm → Result AdmissionResponse
  by_operation create request auth_realm = validate_create auth_realm
  by_operation update request auth_realm =
      validate_update auth_realm (backend.unmarshal_auth_realm request.old_object)
  by_operation delete request auth_realm = ok allow
  by_operation connect request auth_realm = ok allow

  unfoldable pub decoded : AdmissionRequest → Result AuthRealm → Result AdmissionResponse
  decoded request (ok auth_realm) = by_operation request.operation request auth_realm
  decoded request (err e) = ok (deny 400 bad_request e.message)
  decoded request panic = panic

  -- `ValidateAuthRealm`
  unfoldable pub validate_auth_realm : AdmissionRequest → Result AdmissionResponse
  validate_auth_realm request = decoded request (backend.unmarshal_auth_realm request.object)

  -- `ValidateIDPConfig`
  unfoldable pub validate_idp_config : AdmissionRequest → Result AdmissionResponse
  validate_idp_config request = elim (backend.unmarshal_idp_config request.object) [
    | ok meta ↦ check_idp_configs (backend.list_idp_configs meta.namespace)
    | err e ↦ ok (deny 400 bad_request e.message)
    | panic ↦ panic
  ]

  -- `Validate`
  unfoldable pub validate : AdmissionRequest → Result AdmissionResponse
  validate request =
      if not (has_suffix request.group group_suffix)
      then ok allow
      else if request.resource == "authrealms"
      then validate_auth_realm request
      else if request.resource == "idpconfigs"
      then validate_idp_config request
      else ok allow
