-- ===== src/AuthRealm/Unguarded.antt =====
-- What the webhook admits and the AuthRealm's reconciler cannot do.
use idp_mgmt_operator.Base.{String, none, List, [], ◌∷◌, ◌++◌, ◌≡◌, ◌⊎◌, inl, inr, refl, All}
use idp_mgmt_operator.Api.Action.{Error, Result, ok, err, panic}
use idp_mgmt_operator.Api.Identity.{AuthRealm, IdentityProvider, ProviderType}
use idp_mgmt_operator.Api.Client.{LdapUrl}
use idp_mgmt_operator.Helpers.Names.{dex_server_namespace}
use idp_mgmt_operator.Webhook.Validate.{
  Backend, AdmissionRequest, create, allow, validate_auth_realm,
}
use idp_mgmt_operator.Webhook.Admission.{create_allowed_iff}
use idp_mgmt_operator.AuthRealm.Connectors.{connector_of, connectors_of, create_dex_connectors}
use idp_mgmt_operator.AuthRealm.Naming.{connectors_of-panic}

All-insert :
    {A : Type 0} (P : A → Type 0) (xs : List A) (y : A) (ys : List A)
    → P y
    → All P (xs ++ ys)
    → All P (xs ++ y ∷ ys)
All-insert P [] y ys p ps = (p, ps)
All-insert P (x ∷ xs) y ys p (q, qs) = (q, All-insert P xs y ys p qs)

-- The AuthRealm with other identity providers.
abbrev pub with_providers : List IdentityProvider → AuthRealm → AuthRealm
with_providers idps auth_realm = record auth_realm {
  spec = record (auth_realm.spec) { identity_providers = idps };
}

openid-connector_of :
    (parse_ldap_url : String → Result LdapUrl) (auth_realm : AuthRealm) (issuer : String)
    (idp : IdentityProvider)
    → idp.type ≡ ProviderType.openid
    → idp.openid_config ≡ none
    → connector_of parse_ldap_url auth_realm issuer idp.type idp ≡ panic
unfolding connector_of
openid-connector_of parse_ldap_url auth_realm issuer idp t missing = rw (t, missing) refl

-- An OpenID provider without a configuration is admitted anywhere and makes the reconciler panic: if
-- the webhook admits the creation of an AuthRealm, then it also admits the creation of the same
-- AuthRealm with such a provider put among its identity providers at any place; and the making of the
-- connectors of the latter panics, or ends with the error with which a provider before that place
-- ends it.
pub admitted_openid_panics :
    (parse_ldap_url : String → Result LdapUrl) (issuer : String) (backend : Backend)
    (request request' : AdmissionRequest) (auth_realm : AuthRealm) (idp : IdentityProvider)
    (before after : List IdentityProvider)
    → request.operation ≡ create
    → request'.operation ≡ create
    → backend.unmarshal_auth_realm request.object ≡ ok (with_providers (before ++ after) auth_realm)
    → backend.unmarshal_auth_realm request'.object
      ≡ ok (with_providers (before ++ idp ∷ after) auth_realm)
    → idp.type ≡ ProviderType.openid
    → idp.openid_config ≡ none
    → validate_auth_realm backend request ≡ ok allow
    → (validate_auth_realm backend request' ≡ ok allow)
      × ((create_dex_connectors parse_ldap_url
              (with_providers (before ++ idp ∷ after) auth_realm)
              issuer
            ≡ panic)
          ⊎ ((e : Error) × (connectors_of parse_ldap_url
                  (with_providers (before ++ idp ∷ after) auth_realm)
                  issuer
                  before
                ≡ err e)
              × (create_dex_connectors parse_ldap_url
                    (with_providers (before ++ idp ∷ after) auth_realm)
                    issuer
                  ≡ err e)))
unfolding create_dex_connectors dex_server_namespace
admitted_openid_panics parse_ldap_url issuer backend request request' auth_realm idp before after
      creates creates' decodes decodes' t missing admitted =
    let old = with_providers (before ++ after) auth_realm in
    let new = with_providers (before ++ idp ∷ after) auth_realm in
    let (providers, sub_domain, free) =
      (create_allowed_iff backend request old creates decodes).0 admitted in
    (
      (create_allowed_iff backend request' new creates' decodes').1
          (All-insert _ before idp after (rw t tt) providers, sub_domain, free),
      elim (connectors_of-panic parse_ldap_url new issuer before idp after
          (openid-connector_of parse_ldap_url new issuer idp t missing)) [
            | inl e ↦ inl (rw e refl)
            | inr (x, e, e') ↦ inr (x, e, rw e' refl)
          ],
    )
