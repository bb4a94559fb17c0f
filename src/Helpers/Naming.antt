-- ===== src/Helpers/Naming.antt =====
-- Which objects share a name.
use Prim.Native.String.{◌++◌}
use text.Mathlib.TextLemmas.{append_assoc, append_cancel_left, append_cancel_right}
use idp_mgmt_operator.Base.{String, ◌≡◌, ◌↔◌, sym, ap, ◌∙◌}
use idp_mgmt_operator.Api.Meta.{ObjectKey}
use idp_mgmt_operator.Api.Identity.{AuthRealm, StrategyType}
use idp_mgmt_operator.Helpers.Names.{
  dex_server_namespace_prefix, dashed, dex_server_namespace, dex_client_name, cluster_oauth_name,
  client_secret_name, strategy_name,
}

dashed-eq-left : (a b c : String) → (dashed a b ≡ dashed a c) ↔ (b ≡ c)
dashed-eq-left a b c =
    (λ e. append_cancel_left "-" b c (append_cancel_left a _ _ e), λ e. ap (dashed a) e)

dashed-eq-right : (a b c : String) → (dashed a c ≡ dashed b c) ↔ (a ≡ b)
dashed-eq-right a b c = (λ e. append_cancel_right a b _ e, λ e. ap (λ s. dashed s c) e)

dashed_assoc : (a b c : String) → dashed a (dashed b c) ≡ dashed (dashed a b) c
dashed_assoc a b c =
    sym (append_assoc a ("-" ++ b) ("-" ++ c) ∙ ap (λ s. a ++ s) (append_assoc "-" b ("-" ++ c)))

-- Two AuthRealms share the namespace of their dex servers exactly when they have the same
-- sub-domain; two strategies of one AuthRealm share a name exactly when the texts of their types are
-- the same; and two dex clients of one AuthRealm share a name exactly when they are for the same
-- cluster.
pub names_determine :
    (type_text : StrategyType → String) (r s : AuthRealm) (t u : StrategyType) (key : ObjectKey)
    (c d : String)
    → ((dex_server_namespace r ≡ dex_server_namespace s)
        ↔ (r.spec.route_sub_domain ≡ s.spec.route_sub_domain))
      × ((strategy_name type_text r t ≡ strategy_name type_text r u) ↔ (type_text t ≡ type_text u))
      × ((dex_client_name key c ≡ dex_client_name key d) ↔ (c ≡ d))
unfolding dex_server_namespace strategy_name dex_client_name
names_determine type_text r s t u key c d = (
  dashed-eq-left dex_server_namespace_prefix r.spec.route_sub_domain s.spec.route_sub_domain,
  dashed-eq-left r.meta.name (type_text t) (type_text u),
  dashed-eq-right c d key.name,
)

-- The AuthRealm "a" in the namespace "b-c" and the AuthRealm "a-b" in the namespace "c", for any
-- texts a, b and c, share the name of their ClusterOAuths and that of their client secrets.
pub names_collide :
    (a b c : String)
    → (cluster_oauth_name (record { name = a; namespace = dashed b c })
        ≡ cluster_oauth_name (record { name = dashed a b; namespace = c }))
      × (client_secret_name (record { name = a; namespace = dashed b c })
          ≡ client_secret_name (record { name = dashed a b; namespace = c }))
unfolding cluster_oauth_name client_secret_name
names_collide a b c = (dashed_assoc a b c, dashed_assoc a b c)
