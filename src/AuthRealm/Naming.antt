-- ===== src/AuthRealm/Naming.antt =====
-- The connectors of an AuthRealm against its identity providers.
use idp_mgmt_operator.Base.{String, List, [], ◌∷◌, ◌++◌, ◌≡◌, ◌≢◌, ◌⊎◌, inl, inr, refl, map}
use idp_mgmt_operator.Api.Action.{Error, Result, ok, err, panic, non_nil}
use idp_mgmt_operator.Api.Identity.{AuthRealm, IdentityProvider, ProviderType, LdapProvider}
use idp_mgmt_operator.Api.Dex.{Connector}
use idp_mgmt_operator.Api.Client.{LdapUrl}
use idp_mgmt_operator.AuthRealm.Connectors.{
  first_of_list, ldap_url_error, github_connector, ldap_connector, oidc_connector, connector_of,
  connectors_of, non_empty, create_dex_connectors, ◌>>=◌,
}

-- Inversion of a chain of results.
>>=-eq-ok :
    {X Y : Type 0} (first : Result X) (next : X → Result Y) {y : Y}
    → (first >>= next) ≡ ok y
    → (x : X) × (first ≡ ok x) × (next x ≡ ok y)
>>=-eq-ok panic next h = absurd (cc)
>>=-eq-ok (err e) next h = absurd (cc)
>>=-eq-ok (ok x) next h = (x, refl, h)

module _ (parse_ldap_url : String → Result LdapUrl) (auth_realm : AuthRealm) (issuer : String) where
  ldap_connector-name :
      (name : String) (ldap : LdapProvider) (url : LdapUrl) {c : Connector}
      → ldap_connector auth_realm name ldap url ≡ ok c
      → c.name ≡ name
  unfolding ldap_connector
  ldap_connector-name name ldap url {c} h =
      let (id_attr, e, rest) = >>=-eq-ok (first_of_list ldap.id_attributes) _ h in
      let (email_attr, e', rest') = >>=-eq-ok (first_of_list ldap.email_attributes) _ rest in
      let (name_attr, e'', rest'') = >>=-eq-ok (first_of_list ldap.name_attributes) _ rest' in cc

  connector_of-name :
      (t : ProviderType) (idp : IdentityProvider) {c : Connector}
      → connector_of parse_ldap_url auth_realm issuer t idp ≡ ok c
      → c.name ≡ idp.name
  unfolding connector_of github_connector oidc_connector
  connector_of-name ProviderType.github idp h =
      let (g, e, rest) = >>=-eq-ok (non_nil idp.github_config) _ h in cc
  connector_of-name ProviderType.ldap idp h =
      let (l, e, rest) = >>=-eq-ok (non_nil idp.ldap_config) _ h in
      let (url, e', rest') = >>=-eq-ok (ldap_url_error (parse_ldap_url l.url)) _ rest in
      ldap_connector-name idp.name l url rest'
  connector_of-name ProviderType.openid idp h =
      let (o, e, rest) = >>=-eq-ok (non_nil idp.openid_config) _ h in cc
  connector_of-name (ProviderType.other t) idp h = absurd (cc)

  connectors_of-names :
      (idps : List IdentityProvider) {cs : List Connector}
      → connectors_of parse_ldap_url auth_realm issuer idps ≡ ok cs
      → map (λ c. c.name) cs ≡ map (λ idp. idp.name) idps
  unfolding connectors_of
  connectors_of-names [] {cs} h = let same : cs ≡ [] = cc in rw same refl
  connectors_of-names (idp ∷ idps) {cs} h =
      let (c, e, rest) =
        >>=-eq-ok (connector_of parse_ldap_url auth_realm issuer idp.type idp) _ h in
      let (cs', e', rest') =
        >>=-eq-ok (connectors_of parse_ldap_url auth_realm issuer idps) _ rest in
      let same : cs ≡ c ∷ cs' = cc in
      rw (same, connector_of-name idp.type idp e, connectors_of-names idps e') refl

  non_empty-same :
      (cs cs' : List Connector)
      → non_empty parse_ldap_url auth_realm issuer cs ≡ ok cs'
      → (cs' ≡ cs) × (cs' ≢ [])
  unfolding non_empty
  non_empty-same [] cs' h = absurd (cc)
  non_empty-same (c ∷ cs) cs' h = (cc, λ e. absurd (cc))

  -- If the connectors can be made, there is at least one, and they have the names of the identity
  -- providers of the AuthRealm, one for each and in their order.
  pub connectors_follow_providers :
      (cs : List Connector)
      → create_dex_connectors parse_ldap_url auth_realm issuer ≡ ok cs
      → (map (λ c. c.name) cs ≡ map (λ idp. idp.name) auth_realm.spec.identity_providers)
        × (cs ≢ [])
  unfolding create_dex_connectors
  connectors_follow_providers cs h =
      let (made, e, rest) =
        >>=-eq-ok
          (connectors_of parse_ldap_url auth_realm issuer auth_realm.spec.identity_providers)
          (non_empty parse_ldap_url auth_realm issuer) h in
      let (same, some_left) = non_empty-same made cs rest in
      (rw same (connectors_of-names auth_realm.spec.identity_providers e), some_left)

  -- The loop after its first provider.
  by_first :
      (p : IdentityProvider) (before : List IdentityProvider) (idp : IdentityProvider)
      (after : List IdentityProvider) (r : Result Connector)
      → connector_of parse_ldap_url auth_realm issuer p.type p ≡ r
      → (connectors_of parse_ldap_url auth_realm issuer (before ++ idp ∷ after) ≡ panic)
        ⊎ ((e : Error) × (connectors_of parse_ldap_url auth_realm issuer before ≡ err e)
            × (connectors_of parse_ldap_url auth_realm issuer (before ++ idp ∷ after) ≡ err e))
      → (connectors_of parse_ldap_url auth_realm issuer (p ∷ (before ++ idp ∷ after)) ≡ panic)
        ⊎ ((e : Error) × (connectors_of parse_ldap_url auth_realm issuer (p ∷ before) ≡ err e)
            × (connectors_of parse_ldap_url auth_realm issuer (p ∷ (before ++ idp ∷ after))
                ≡ err e))
  unfolding connectors_of
  by_first p before idp after (ok c) h (inl e) = inl (rw (h, e) refl)
  by_first p before idp after (ok c) h (inr (x, e, e')) = inr (x, rw (h, e) refl, rw (h, e') refl)
  by_first p before idp after (err x) h way = inr (x, rw h refl, rw h refl)
  by_first p before idp after panic h way = inl (rw h refl)

  -- A provider that makes the loop panic does so unless an earlier one has ended it.
  pub connectors_of-panic :
      (before : List IdentityProvider) (idp : IdentityProvider) (after : List IdentityProvider)
      → connector_of parse_ldap_url auth_realm issuer idp.type idp ≡ panic
      → (connectors_of parse_ldap_url auth_realm issuer (before ++ idp ∷ after) ≡ panic)
        ⊎ ((e : Error) × (connectors_of parse_ldap_url auth_realm issuer before ≡ err e)
            × (connectors_of parse_ldap_url auth_realm issuer (before ++ idp ∷ after) ≡ err e))
  unfolding connectors_of
  connectors_of-panic [] idp after h = inl (rw h refl)
  connectors_of-panic (p ∷ before) idp after h =
      by_first p before idp after _ refl (connectors_of-panic before idp after h)
