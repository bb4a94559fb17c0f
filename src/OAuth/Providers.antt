-- ===== src/OAuth/Providers.antt =====
-- The identity providers of the OAuth that a cluster gets, against a description by lists.
use mathlib.Core.List.{append_assoc, append-nil}
use idp_mgmt_operator.Base.{
  String, false, Bool-cases, Option-cases, Option, none, some, List, [], ◌∷◌, ◌++◌, ◌≡◌, refl, ap,
  ◌∙◌, ◌⊎◌, inl, inr, Any, if◌then◌else◌,
}
use idp_mgmt_operator.Api.Action.{ok, panic, non_nil}
use idp_mgmt_operator.Api.Meta.{is_deleting}
use idp_mgmt_operator.Api.Identity.{ClusterOAuth, IdentityProvider, OpenIdProvider}
use idp_mgmt_operator.Helpers.Names.{dashed}
use idp_mgmt_operator.OAuth.Aggregate.{
  then_append, prefix_secret, append_provider, add_providers, add_cluster_oauths,
  aggregate_cluster_oauths,
}

-- A provider as the cluster sees it: its secret has the name under which it is copied.
abbrev pub with_secret : String → Option OpenIdProvider → Option OpenIdProvider
with_secret namespace none = none
with_secret namespace (some o) =
    some (record o { client_secret = dashed namespace o.client_secret })

abbrev pub copied : String → List IdentityProvider → List IdentityProvider
copied namespace [] = []
copied namespace (idp ∷ idps) =
    record idp { openid_config = with_secret namespace idp.openid_config } ∷ copied namespace idps

-- The providers of all ClusterOAuths that are not being deleted, in their order.
abbrev pub own_providers : String → Option (List IdentityProvider) → List IdentityProvider
own_providers namespace none = []
own_providers namespace (some idps) = copied namespace idps

abbrev pub all_providers : List ClusterOAuth → List IdentityProvider
all_providers [] = []
all_providers (c ∷ cs) =
    if is_deleting c.meta
    then all_providers cs
    else own_providers c.meta.namespace c.oauth ++ all_providers cs

abbrev pub HasNil : List IdentityProvider → Type 0
HasNil idps = Any (λ idp. idp.openid_config ≡ none) idps

-- A nil pointer in what a ClusterOAuth points to.
abbrev pub PointsToNil : Option (List IdentityProvider) → Type 0
PointsToNil none = Unit
PointsToNil (some idps) = HasNil idps

-- A nil pointer in a ClusterOAuth that is not being deleted.
abbrev pub LiveNil : List ClusterOAuth → Type 0
LiveNil cs = Any (λ c. (is_deleting c.meta ≡ false) × PointsToNil c.oauth) cs

some_provider :
    (namespace : String) (acc : List IdentityProvider) (idp : IdentityProvider)
    (idps : List IdentityProvider) (o : OpenIdProvider)
    → idp.openid_config ≡ some o
    → add_providers namespace acc (idp ∷ idps)
      ≡ add_providers namespace
          (acc ++ record idp { openid_config = with_secret namespace idp.openid_config } ∷ [])
          idps
unfolding add_providers prefix_secret append_provider
some_provider namespace acc idp idps o e = rw e refl

nil_provider :
    (namespace : String) (acc : List IdentityProvider) (idp : IdentityProvider)
    (idps : List IdentityProvider)
    → idp.openid_config ≡ none
    → add_providers namespace acc (idp ∷ idps) ≡ panic
unfolding add_providers prefix_secret append_provider
nil_provider namespace acc idp idps e = rw e refl

add_providers_lem :
    (namespace : String) (acc idps : List IdentityProvider)
    → (add_providers namespace acc idps ≡ ok (acc ++ copied namespace idps))
      ⊎ ((add_providers namespace acc idps ≡ panic) × HasNil idps)
unfolding add_providers
add_providers_lem namespace acc [] = inl (rw (append-nil acc) refl)
add_providers_lem namespace acc (idp ∷ idps) = elim (Option-cases idp.openid_config) [
  | inl e ↦ inr (nil_provider namespace acc idp idps e, inl e)
  | inr (o, e) ↦
      let q = record idp { openid_config = with_secret namespace idp.openid_config } in
      let here = some_provider namespace acc idp idps o e in
      elim (add_providers_lem namespace (acc ++ q ∷ []) idps) [
        | inl h ↦ inl (here ∙ h ∙ ap ok (append_assoc acc (q ∷ []) (copied namespace idps)))
        | inr (h, nil) ↦ inr (here ∙ h, inr nil)
      ]
]

own_providers_lem :
    (namespace : String) (acc : List IdentityProvider) (oauth : Option (List IdentityProvider))
    → (then_append (non_nil oauth) (λ idps. add_providers namespace acc idps)
        ≡ ok (acc ++ own_providers namespace oauth))
      ⊎ ((then_append (non_nil oauth) (λ idps. add_providers namespace acc idps) ≡ panic)
          × PointsToNil oauth)
own_providers_lem namespace acc none = inr (refl, tt)
own_providers_lem namespace acc (some idps) = add_providers_lem namespace acc idps

add_cluster_oauths_lem :
    (acc : List IdentityProvider) (cs : List ClusterOAuth)
    → (add_cluster_oauths acc cs ≡ ok (acc ++ all_providers cs))
      ⊎ ((add_cluster_oauths acc cs ≡ panic) × LiveNil cs)
unfolding add_cluster_oauths
add_cluster_oauths_lem acc [] = inl (rw (append-nil acc) refl)
add_cluster_oauths_lem acc (c ∷ cs) = elim (Bool-cases (is_deleting c.meta)) [
  | inl e ↦ elim (add_cluster_oauths_lem acc cs) [
    | inl h ↦ inl (rw e h)
    | inr (h, nil) ↦ inr (rw e h, inr nil)
  ]
  | inr e ↦
      let own = own_providers c.meta.namespace c.oauth in
      elim (own_providers_lem c.meta.namespace acc c.oauth) [
        | inr (h, nil) ↦ inr (rw (e, h) refl, inl (e, nil))
        | inl h ↦ elim (add_cluster_oauths_lem (acc ++ own) cs) [
          | inl h' ↦ inl (rw (e, h) (h' ∙ ap ok (append_assoc acc own (all_providers cs))))
          | inr (h', nil) ↦ inr (rw (e, h) h', inr nil)
        ]
      ]
]

-- The OAuth that is made from a list of ClusterOAuths is named "cluster" and has the providers of
-- those that are not being deleted, all of them in their order, each with the name of its secret
-- prefixed by the namespace of its ClusterOAuth; or the code dereferences a nil pointer, and then one
-- of those ClusterOAuths has no OAuth, or a provider without an OpenID configuration.
pub union_of_providers :
    (cs : List ClusterOAuth)
    → (aggregate_cluster_oauths cs
        ≡ ok (record { name = "cluster"; identity_providers = all_providers cs }))
      ⊎ ((aggregate_cluster_oauths cs ≡ panic) × LiveNil cs)
unfolding aggregate_cluster_oauths
union_of_providers cs = elim (add_cluster_oauths_lem [] cs) [
  | inl h ↦ inl (rw h refl)
  | inr (h, nil) ↦ inr (rw h refl, nil)
]
