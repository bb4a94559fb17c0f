-- ===== src/Chain/Outlive.antt =====
-- The deletion of a placement leaves the dex clients that it has brought.
use idp_mgmt_operator.Base.{true, List, ◌∷◌, ◌≡◌, refl, ◌∙◌, String}
use idp_mgmt_operator.Api.Action.{ok, done, requeue_in_1s}
use idp_mgmt_operator.Api.Meta.{ObjectKey, is_deleting}
use idp_mgmt_operator.Api.Identity.{AuthRealm, ClusterOAuth}
use idp_mgmt_operator.Api.Objects.{Placement, DexClient, Secret}
use idp_mgmt_operator.Api.Client.{Env, in_namespace}
use idp_mgmt_operator.Helpers.Names.{dex_server_namespace}
use idp_mgmt_operator.AuthRealm.Deletion.{process_authrealm_deletion}
use idp_mgmt_operator.AuthRealm.DexServer.{after_dex_clients, process_dex_server_deletion}
use idp_mgmt_operator.Placement.Decisions.{list_placement_decisions}
use idp_mgmt_operator.Placement.Delete.{process_placement_deletion}
use idp_mgmt_operator.Placement.Reconcile.{drop_finalizer, reconcile_instance}
use idp_mgmt_operator.Placement.Keeping.{
  Keeps, bind-Keeps, pure-Keeps, read-Keeps, unless_requeue-Keeps, for_each_unless_requeue-Keeps,
  config-Keeps,
}

module _ {W X : Type 0} (view : W → X) (env : Env W)
    -- what is shown does not change by the deletion of secrets and ClusterOAuths, and by the write
    -- of a placement
    (secrets_apart : (o : Secret) (w : W) → view (env.secrets.delete o w).1 ≡ view w)
    (oauths_apart : (o : ClusterOAuth) (w : W) → view (env.cluster_oauths.delete o w).1 ≡ view w)
    (placements_apart : (o : Placement) (w : W) → view (env.placements.update o w).1 ≡ view w) where
  placement_deletion-Keeps :
      (placement : Placement) → Keeps view (process_placement_deletion env placement)
  unfolding process_placement_deletion list_placement_decisions
  placement_deletion-Keeps placement =
      bind-Keeps view (list_placement_decisions env placement) _ (read-Keeps view _) λ ds.
        for_each_unless_requeue-Keeps view _
          (λ d.
            for_each_unless_requeue-Keeps view _
              (λ cluster_name.
                config-Keeps view env secrets_apart oauths_apart cluster_name placement)
              d.decisions)
          ds

  drop-Keeps : (placement : Placement) → Keeps view (drop_finalizer env placement)
  unfolding drop_finalizer
  drop-Keeps placement =
      bind-Keeps view (env.placements.update _) _ (record { keeps = placements_apart _ })
        (λ _. pure-Keeps view done)

  deleted-Keeps :
      (random : ObjectKey → String) (placement : Placement)
      → is_deleting placement.meta ≡ true
      → Keeps view (reconcile_instance env random placement)
  unfolding reconcile_instance
  deleted-Keeps random placement deleting = rw deleting (
      unless_requeue-Keeps view (process_placement_deletion env placement)
        (drop_finalizer env placement) (placement_deletion-Keeps placement) (drop-Keeps placement))

-- While a dex client is listed, the deletion of the AuthRealm asks to come back.
listed_client_blocks :
    {W : Type 0} (env : Env W) (auth_realm : AuthRealm) (c : DexClient) (cs : List DexClient)
    (w : W)
    → env.dex_clients.list (in_namespace (dex_server_namespace auth_realm)) w ≡ ok (c ∷ cs)
    → process_authrealm_deletion env auth_realm w ≡ (ok requeue_in_1s, w)
unfolding process_authrealm_deletion process_dex_server_deletion after_dex_clients
listed_client_blocks env auth_realm c cs w e = rw e refl

-- The deletion of a placement leaves the dex clients that it has brought, and an AuthRealm with such
-- a client cannot be deleted: if a dex client is listed in the AuthRealm's namespace before a
-- placement that is being deleted is reconciled, then after it, whatever its result, the deletion of
-- the AuthRealm does nothing but ask to come back; provided that the deletion of secrets and
-- ClusterOAuths and the write of a placement leave the dex clients.
pub deleted_placement_blocks_realm :
    {W : Type 0} (env : Env W) (auth_realm : AuthRealm)
    (secrets_apart : (o : Secret) (w : W)
      → env.dex_clients.list
          (in_namespace (dex_server_namespace auth_realm))
          (env.secrets.delete o w).1
        ≡ env.dex_clients.list (in_namespace (dex_server_namespace auth_realm)) w)
    (oauths_apart : (o : ClusterOAuth) (w : W)
      → env.dex_clients.list
          (in_namespace (dex_server_namespace auth_realm))
          (env.cluster_oauths.delete o w).1
        ≡ env.dex_clients.list (in_namespace (dex_server_namespace auth_realm)) w)
    (placements_apart : (o : Placement) (w : W)
      → env.dex_clients.list
          (in_namespace (dex_server_namespace auth_realm))
          (env.placements.update o w).1
        ≡ env.dex_clients.list (in_namespace (dex_server_namespace auth_realm)) w)
    (random : ObjectKey → String) (placement : Placement) (c : DexClient) (cs : List DexClient)
    (w : W)
    → is_deleting placement.meta ≡ true
    → env.dex_clients.list (in_namespace (dex_server_namespace auth_realm)) w ≡ ok (c ∷ cs)
    → process_authrealm_deletion env auth_realm (reconcile_instance env random placement w).1
      ≡ (ok requeue_in_1s, (reconcile_instance env random placement w).1)
deleted_placement_blocks_realm env auth_realm secrets_apart oauths_apart placements_apart random
      placement c cs w deleting e =
    let clients = env.dex_clients.list (in_namespace (dex_server_namespace auth_realm)) in
    let kept =
      (deleted-Keeps clients env secrets_apart oauths_apart placements_apart random placement
          deleting).keeps
        w in
    listed_client_blocks env auth_realm c cs (reconcile_instance env random placement w).1
      (kept ∙ e)
