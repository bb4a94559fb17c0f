-- ===== src/Helpers/Lookup.antt =====
-- pkg/helpers/common.go, server.go (`IsHostedCluster`), infratructure.go and strategy.go: the
-- AuthRealm of a strategy, hosted clusters, the applications' URL and the creation of a strategy.
use Prim.Native.Nat.{◌+◌}
use Prim.Native.String.{◌++◌, slice, len}
use text.Mathlib.Text.{find?}
use idp_mgmt_operator.Base.{
  String, Bool, none, some, List, [], ◌∷◌, not, ◌&&◌, ◌==◌, if◌then◌else◌, is_none,
}
use idp_mgmt_operator.Api.Action.{Action, pure, read, lift, or_not_found, ◌>>=◌}
use idp_mgmt_operator.Api.Meta.{OwnerReference, lookup, new_meta}
use idp_mgmt_operator.Api.Identity.{AuthRealm, Strategy, StrategyType}
use idp_mgmt_operator.Api.Objects.{ManagedCluster}
use idp_mgmt_operator.Api.Client.{Env}
use idp_mgmt_operator.Helpers.Names.{hosting_cluster_annotation, strategy_name}

-- The loop over the owner references with its `break`; a reference that is not there is empty.
unfoldable pub auth_realm_owner_name : List OwnerReference → String
auth_realm_owner_name [] = ""
auth_realm_owner_name (o ∷ os) = if o.kind == "AuthRealm" then o.name else auth_realm_owner_name os

-- `IsHostedCluster`
unfoldable pub is_hosted_cluster : ManagedCluster → Bool
is_hosted_cluster mc = not (is_none (lookup hosting_cluster_annotation mc.meta.annotations))

-- `strings.Replace(s, old, new, 1)`
unfoldable pub replace_first : String → String → String → String
replace_first s old new = elim (find? s old) [
  | none ↦ s
  | some i ↦ slice s 0 i ++ (new ++ slice s (i + len old) (len s))
]

module _ {W : Type 0} (env : Env W) where
  -- `GetAuthrealmFromStrategy`
  unfoldable pub get_authrealm_from_strategy : Strategy → Action W AuthRealm
  get_authrealm_from_strategy strategy = read (
      env.auth_realms.get (record {
        name = auth_realm_owner_name strategy.meta.owner_references;
        namespace = strategy.meta.namespace;
      }))

  -- `GetAppsURL`: the scheme and the host
  unfoldable pub get_apps_url : Bool → Action W (String × String)
  get_apps_url with_port = do
    api_server_url ← read env.api_server_url
    u ← lift (env.parse_url api_server_url)
    (host, port) ← lift (env.split_host_port u.host)
    let apps = replace_first host "api" "apps"
    pure (u.scheme, (if with_port && not (port == "") then apps ++ (":" ++ port) else apps))

  -- `CreateStrategy`
  unfoldable pub create_strategy : StrategyType → AuthRealm → Action W (Unit {0})
  create_strategy t auth_realm = do
    let name = strategy_name env.strategy_type_text auth_realm t
    existing ← read (λ w.
        or_not_found
          (env.strategies.get (record { name = name; namespace = auth_realm.meta.namespace }) w))
    elim existing [
      | some strategy ↦ pure tt
      | none ↦ do
        refs ← lift (env.set_controller_reference "AuthRealm" auth_realm.meta [])
        created ← env.strategies.create (record {
          meta = record (new_meta name auth_realm.meta.namespace) { owner_references = refs };
          type = t;
          placement_ref = "";
          conditions = [];
        })
        pure tt
    ]
