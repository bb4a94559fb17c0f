-- ===== src/Webhook/Admission.antt =====
-- What it means that the webhook admits a request.
use Prim.Native.String.{len}
use idp_mgmt_operator.Base.{
  ◌≤◌, String, true, false, Option, none, some, List, [], ◌∷◌, ◌≡◌, ◌≢◌, ◌↔◌, refl, ap, arith,
  length, codes, split_at, All,
}
use idp_mgmt_operator.Api.Action.{Result, ok, err, panic, is_not_found}
use idp_mgmt_operator.Api.Meta.{ObjectMeta}
use idp_mgmt_operator.Api.Identity.{
  AuthRealm, IdentityProvider, ProviderType, GitHubProvider, LdapProvider,
}
use idp_mgmt_operator.Helpers.Names.{dex_server_namespace}
use idp_mgmt_operator.Webhook.Domain.{domain_regex_matches}
use idp_mgmt_operator.Webhook.Validate.{
  create, AdmissionRequest, AdmissionResponse, allow, Backend, check_teams, check_ldap,
  check_by_type, check_providers, check_sub_domain, check_namespace, after_sub_domain,
  after_providers, validate_create, by_operation, decoded, validate_auth_realm,
}

-- Each team has an organization and a name.
abbrev pub TeamsAreValid : List String → Type 0
TeamsAreValid teams = All (λ team. length (split_at b'/' team) ≡ 2) teams

check_teams_iff : (teams : List String) → (check_teams teams ≡ none) ↔ TeamsAreValid teams
unfolding check_teams
check_teams_iff [] = (λ e. tt, λ h. refl)
check_teams_iff (team ∷ teams) =
    let (f, g) = check_teams_iff teams in (λ e. ground (arith, f), λ h. ground (arith, g))

-- What the switch on the type asks of an identity provider.
abbrev pub ProviderIsValid :
    Backend → ProviderType → Option GitHubProvider → Option LdapProvider → Type 0
ProviderIsValid backend ProviderType.github none ldap = ⊥
ProviderIsValid backend ProviderType.github (some g) ldap = TeamsAreValid g.teams
ProviderIsValid backend ProviderType.ldap github none = ⊥
ProviderIsValid backend ProviderType.ldap github (some l) =
    (backend.parse_ldap_url l.url ≡ ok tt) × (l.insecure ≡ false)
ProviderIsValid backend ProviderType.openid github ldap = Unit
ProviderIsValid backend (ProviderType.other t) github ldap = Unit

abbrev pub ProvidersAreValid : Backend → List IdentityProvider → Type 0
ProvidersAreValid backend idps =
    All (λ idp. ProviderIsValid backend idp.type idp.github_config idp.ldap_config) idps

check_ldap_iff :
    (l : LdapProvider) (r : Result (Unit {0}))
    → (check_ldap l r ≡ ok none) ↔ ((r ≡ ok tt) × (l.insecure ≡ false))
unfolding check_ldap
check_ldap_iff l (ok u) = ground arith
check_ldap_iff l (err e) = ground arith
check_ldap_iff l panic = ground arith

check_by_type_iff :
    (backend : Backend) (t : ProviderType) (github : Option GitHubProvider)
    (ldap : Option LdapProvider)
    → (check_by_type backend t github ldap ≡ ok none) ↔ ProviderIsValid backend t github ldap
unfolding check_by_type
check_by_type_iff backend ProviderType.github none ldap = (λ e. absurd (cc), λ h. absurd h)
check_by_type_iff backend ProviderType.github (some g) ldap =
    let (f, f') = check_teams_iff g.teams in (λ e. f (cc), λ h. ap ok (f' h))
check_by_type_iff backend ProviderType.ldap github none = (λ e. absurd (cc), λ h. absurd h)
check_by_type_iff backend ProviderType.ldap github (some l) =
    check_ldap_iff l (backend.parse_ldap_url l.url)
check_by_type_iff backend ProviderType.openid github ldap = (λ e. tt, λ h. refl)
check_by_type_iff backend (ProviderType.other t) github ldap = (λ e. tt, λ h. refl)

check_providers_iff :
    (backend : Backend) (idps : List IdentityProvider)
    → (check_providers backend idps ≡ ok none) ↔ ProvidersAreValid backend idps
unfolding check_providers
check_providers_iff backend [] = (λ e. tt, λ h. refl)
check_providers_iff backend (idp ∷ idps) = (
  λ e.
      let first : check_by_type backend idp.type idp.github_config idp.ldap_config ≡ ok none =
        ground arith in
      (
        (check_by_type_iff backend idp.type idp.github_config idp.ldap_config).0 first,
        (check_providers_iff backend idps).0 (ground arith),
      ),
  λ (h, hs).
      rw
        (
          (check_by_type_iff backend idp.type idp.github_config idp.ldap_config).1 h,
          check_providers,
        )
        ((check_providers_iff backend idps).1 hs),
)

abbrev pub SubDomainIsValid : String → Type 0
SubDomainIsValid s = (len s ≢ 0) × (len s ≤ 54) × (domain_regex_matches (codes s) ≡ true)

check_sub_domain_iff : (s : String) → (check_sub_domain s ≡ none) ↔ SubDomainIsValid s
unfolding check_sub_domain
check_sub_domain_iff s = (λ e. (ground arith, ground arith, ground arith), λ h. ground arith)

-- A refusal is never an admission.
check_teams-refuses :
    (teams : List String) (r : AdmissionResponse) → check_teams teams ≡ some r → r.allowed ≡ false
unfolding check_teams
check_teams-refuses [] r e = absurd (cc)
check_teams-refuses (team ∷ teams) r e = ground (arith, check_teams-refuses teams r)

check_by_type-refuses :
    (backend : Backend) (t : ProviderType) (github : Option GitHubProvider)
    (ldap : Option LdapProvider) (r : AdmissionResponse)
    → check_by_type backend t github ldap ≡ ok (some r)
    → r.allowed ≡ false
unfolding check_by_type check_ldap
check_by_type-refuses backend ProviderType.github (some g) ldap r e =
    check_teams-refuses g.teams r (cc)
check_by_type-refuses backend t github ldap r e = ground arith

check_providers-refuses :
    (backend : Backend) (idps : List IdentityProvider) (r : AdmissionResponse)
    → check_providers backend idps ≡ ok (some r)
    → r.allowed ≡ false
unfolding check_providers
check_providers-refuses backend [] r e = absurd (cc)
check_providers-refuses backend (idp ∷ idps) r e = ground (
  arith,
  check_by_type-refuses backend idp.type idp.github_config idp.ldap_config r,
  check_providers-refuses backend idps r,
)

check_sub_domain-refuses :
    (s : String) (r : AdmissionResponse) → check_sub_domain s ≡ some r → r.allowed ≡ false
unfolding check_sub_domain
check_sub_domain-refuses s r e = ground arith

-- The namespace of the dex server is known to be free.
abbrev pub NamespaceIsFree : Result ObjectMeta → Type 0
NamespaceIsFree (ok ns) = ⊥
NamespaceIsFree (err e) = is_not_found e ≡ true
NamespaceIsFree panic = ⊥

check_namespace_iff :
    (s : String) (r : Result ObjectMeta) → (check_namespace s r ≡ ok allow) ↔ NamespaceIsFree r
unfolding check_namespace
check_namespace_iff s (ok ns) = ground arith
check_namespace_iff s (err e) = ground arith
check_namespace_iff s panic = ground arith

after_providers-allow :
    (backend : Backend) (auth_realm : AuthRealm) (p : Result (Option AdmissionResponse))
    → ((r : AdmissionResponse) → p ≡ ok (some r) → r.allowed ≡ false)
    → after_providers backend auth_realm p ≡ ok allow
    → (p ≡ ok none)
      × (after_sub_domain backend auth_realm (check_sub_domain auth_realm.spec.route_sub_domain)
          ≡ ok allow)
unfolding after_providers
after_providers-allow backend auth_realm (ok none) refuses e = (refl, e)
after_providers-allow backend auth_realm (ok (some r)) refuses e = ground (arith, refuses r refl)
after_providers-allow backend auth_realm (err x) refuses e = absurd (cc)
after_providers-allow backend auth_realm panic refuses e = absurd (cc)

after_sub_domain-allow :
    (backend : Backend) (auth_realm : AuthRealm) (o : Option AdmissionResponse)
    → ((r : AdmissionResponse) → o ≡ some r → r.allowed ≡ false)
    → after_sub_domain backend auth_realm o ≡ ok allow
    → (o ≡ none) × NamespaceIsFree (backend.get_namespace (dex_server_namespace auth_realm))
unfolding after_sub_domain
after_sub_domain-allow backend auth_realm none refuses e =
    (refl, (check_namespace_iff auth_realm.spec.route_sub_domain _).0 e)
after_sub_domain-allow backend auth_realm (some r) refuses e = ground (arith, refuses r refl)

-- The webhook admits the creation of an AuthRealm that decodes exactly when all its identity
-- providers are valid (GitHub teams in two parts, an LDAP URL that parses and no insecure LDAP), its
-- sub-domain has 1 to 54 bytes and matches the expression, and the namespace of its dex server is
-- known not to exist.
pub create_allowed_iff :
    (backend : Backend) (request : AdmissionRequest) (auth_realm : AuthRealm)
    → request.operation ≡ create
    → backend.unmarshal_auth_realm request.object ≡ ok auth_realm
    → (validate_auth_realm backend request ≡ ok allow) ↔ (
        ProvidersAreValid backend auth_realm.spec.identity_providers
        × SubDomainIsValid auth_realm.spec.route_sub_domain
        × NamespaceIsFree (backend.get_namespace (dex_server_namespace auth_realm)))
unfolding validate_auth_realm decoded by_operation validate_create after_providers after_sub_domain
create_allowed_iff backend request auth_realm o d =
    rw (d, o)
      (
        λ e.
            let (providers, e') =
              after_providers-allow backend auth_realm _
                (check_providers-refuses backend auth_realm.spec.identity_providers) e in
            let (sub_domain, free) =
              after_sub_domain-allow backend auth_realm _
                (check_sub_domain-refuses auth_realm.spec.route_sub_domain) e' in
            (
              (check_providers_iff backend auth_realm.spec.identity_providers).0 providers,
              (check_sub_domain_iff auth_realm.spec.route_sub_domain).0 sub_domain,
              free,
            ),
        λ (providers, sub_domain, free).
            rw
              (
                (check_providers_iff backend auth_realm.spec.identity_providers).1 providers,
                (check_sub_domain_iff auth_realm.spec.route_sub_domain).1 sub_domain,
              )
              ((check_namespace_iff auth_realm.spec.route_sub_domain _).1 free),
      )
