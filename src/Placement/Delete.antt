-- ===== src/Placement/Delete.antt =====
-- `deleteClusterOAuthConfig` and `deleteObsoleteConfigs` of controllers/placement/dex.go, and
-- `processPlacementDeletion` of placement_controller.go.
use idp_mgmt_operator.Base.{
  String, Bool, not, ◌&&◌, ◌||◌, none, some, List, [], ◌∷◌, ◌==◌, any, if◌then◌else◌,
}
use idp_mgmt_operator.Api.Action.{
  Action, Result, ok, err, panic, CtrlResult, done, requeue_in_1s, pure, read, or_not_found,
  for_each, for_each_unless_requeue, ◌>>=◌, ◌>>◌,
}
use idp_mgmt_operator.Api.Meta.{
  OwnerReference, ObjectKey, key_of, lookup, value_or_empty, is_deleting,
}
use idp_mgmt_operator.Api.Identity.{AuthRealm, Strategy, ClusterOAuth}
use idp_mgmt_operator.Api.Objects.{Placement, DexClient}
use idp_mgmt_operator.Api.Client.{Env, Resource, in_namespace, in_namespace_with}
use idp_mgmt_operator.Helpers.Names.{
  cluster_name_label, strategy_type_label, client_secret_name, cluster_oauth_name,
  dex_server_namespace,
}
use idp_mgmt_operator.Placement.Decisions.{list_placement_decisions, in_placement_decision}

-- Whether the strategy of a ClusterOAuth owns the placement.
unfoldable pub is_owned_by : List OwnerReference → ClusterOAuth → Bool
is_owned_by owner_references cluster_oauth =
    any (λ o. o.kind == "Strategy" && o.name == cluster_oauth.strategy_reference.name)
      owner_references

abbrev pub auth_realm_key : ClusterOAuth → ObjectKey
auth_realm_key cluster_oauth = record {
  name = cluster_oauth.auth_realm_reference.name;
  namespace = cluster_oauth.auth_realm_reference.namespace;
}

-- `clusterOAuthsToBeDeleted`
unfoldable pub to_be_deleted : List OwnerReference → List ClusterOAuth → List ClusterOAuth
to_be_deleted owners [] = []
to_be_deleted owners (c ∷ cs) =
    if is_owned_by owners c then c ∷ to_be_deleted owners cs else to_be_deleted owners cs

-- A deletion of what `Get` finds; what is not there is left.
unfoldable pub delete_at : {W A : Type 0} → Resource W A → ObjectKey → Action W (Unit {0})
delete_at resource key =
    read (λ w. or_not_found (resource.get key w))
    >>= elim [ none ↦ pure tt | some o ↦ resource.delete o ]

abbrev pub come_back_while_there : {A : Type 0} → Result A → Result CtrlResult
come_back_while_there (ok o) = ok requeue_in_1s
come_back_while_there (err e) = ok done
come_back_while_there panic = panic

-- A wait for an object to go: any error of `Get` counts as its absence.
unfoldable pub wait_for : {W A : Type 0} → Resource W A → ObjectKey → Action W CtrlResult
wait_for resource key w = (come_back_while_there (resource.get key w), w)

-- What the first loop of `deleteObsoleteConfigs` returns: a result to return at once, or the dex
-- clients to be deleted.
pub data Collected : Type 0 where
  stop : CtrlResult → Collected
  collected : List DexClient → Collected

abbrev pub collect_also : DexClient → Collected → Collected
collect_also c (stop r) = stop r
collect_also c (collected ds) = collected (c ∷ ds)

abbrev pub client_secret_key : String → ClusterOAuth → ObjectKey
client_secret_key cluster_name c = record {
  name = client_secret_name (auth_realm_key c);
  namespace = cluster_name;
}

-- The key that the last loop waits on: it is made of the AuthRealm's name.
abbrev pub awaited_key : String → ClusterOAuth → ObjectKey
awaited_key cluster_name c = record {
  name = cluster_oauth_name (auth_realm_key c);
  namespace = cluster_name;
}

abbrev pub cluster_of : DexClient → String
cluster_of dex_client = value_or_empty (lookup cluster_name_label dex_client.meta.labels)

module _ {W : Type 0} (env : Env W) where
  -- The three loops of `deleteClusterOAuthConfig`, over the ClusterOAuths to be deleted.
  unfoldable pub delete_cluster_oauths : String → List ClusterOAuth → Action W CtrlResult
  delete_cluster_oauths cluster_name cs = do
    for_each cs (λ c. delete_at env.secrets (client_secret_key cluster_name c))
    for_each cs (λ c. delete_at env.cluster_oauths (key_of c.meta))
    for_each_unless_requeue cs (λ c. wait_for env.cluster_oauths (awaited_key cluster_name c))

  -- `deleteClusterOAuthConfig`
  unfoldable pub delete_cluster_oauth_config : String → Placement → Action W CtrlResult
  delete_cluster_oauth_config cluster_name placement = do
    cluster_oauths ← read (env.cluster_oauths.list (in_namespace cluster_name))
    delete_cluster_oauths cluster_name
        (to_be_deleted placement.meta.owner_references cluster_oauths)

  -- What follows the deletion of the configuration of an obsolete dex client.
  unfoldable pub add_obsolete : DexClient → Action W Collected → CtrlResult → Action W Collected
  add_obsolete c rest result =
      if result.requeue then pure (stop result) else rest >>= λ r. pure (collect_also c r)

  unfoldable pub collect_obsolete : AuthRealm → Placement → List DexClient → Action W Collected
  collect_obsolete auth_realm placement [] = pure (collected [])
  collect_obsolete auth_realm placement (c ∷ cs) =
      let rest = collect_obsolete auth_realm placement cs in
      in_placement_decision env (cluster_of c) placement >>= λ decided.
      if not decided || is_deleting auth_realm.meta
      then (delete_cluster_oauth_config (cluster_of c) placement >>= add_obsolete c rest)
      else rest

  -- The other two loops: the dex clients are deleted, and waited for.
  unfoldable pub delete_dex_clients : List DexClient → Action W CtrlResult
  delete_dex_clients ds = do
    for_each ds (λ d. delete_at env.dex_clients (key_of d.meta))
    for_each_unless_requeue ds (λ d. wait_for env.dex_clients (key_of d.meta))

  unfoldable pub delete_collected : Collected → Action W CtrlResult
  delete_collected (stop r) = pure r
  delete_collected (collected ds) = delete_dex_clients ds

  -- `deleteObsoleteConfigs`
  unfoldable pub delete_obsolete_configs : AuthRealm → Strategy → Placement → Action W CtrlResult
  delete_obsolete_configs auth_realm strategy placement = do
    dex_clients ← read (
        env.dex_clients.list (
          in_namespace_with (dex_server_namespace auth_realm)
            ((strategy_type_label, env.strategy_type_text strategy.type) ∷ [])))
    outcome ← collect_obsolete auth_realm placement dex_clients
    delete_collected outcome

  -- `processPlacementDeletion`
  unfoldable pub process_placement_deletion : Placement → Action W CtrlResult
  process_placement_deletion placement =
      list_placement_decisions env placement >>= λ placement_decisions.
      for_each_unless_requeue placement_decisions λ d.
        for_each_unless_requeue d.decisions
          λ cluster_name. delete_cluster_oauth_config cluster_name placement
