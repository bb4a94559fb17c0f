-- ===== src/Status/Written.antt =====
-- What the status controllers write in the status of an AuthRealm.
use idp_mgmt_operator.Base.{
  ℕ, String, Bool, true, false, ◌&&◌, none, some, List, ◌≡◌, refl, ◌==◌, ◌⊎◌, inl, inr, arith,
  if◌then◌else◌,
}
use idp_mgmt_operator.Api.Action.{ok, err, Error, done, pure, ◌>>◌}
use idp_mgmt_operator.Api.Identity.{AuthRealm, ClusterOAuth, ClusterStatus, StrategySummary}
use idp_mgmt_operator.Api.Client.{Env}
use idp_mgmt_operator.Api.Work.{Hub, ManifestWork, HypershiftDeployment}
use idp_mgmt_operator.Helpers.Status.{modify_at}
use idp_mgmt_operator.Helpers.Position.{
  strategy_not_found, cluster_not_found, no_strategy, no_cluster, at, modify_clusters,
}
use idp_mgmt_operator.Helpers.Entries.{entry, entry-modify, entry-missing}
use idp_mgmt_operator.Status.Manifest.{
  set_manifest_work, update_work_at, update_authrealm_status_manifest_work_conditions,
}
use idp_mgmt_operator.Status.Deployment.{
  clear_deployment, set_deployment, new_status, update_deployment_at,
  update_authrealm_status_hypershift_deployment_conditions,
}

keeps_name :
    (work : ManifestWork) (delete : Bool) (c : ClusterStatus)
    → (set_manifest_work work delete c).name ≡ c.name
unfolding set_manifest_work
keeps_name work true c = refl
keeps_name work false c = refl

-- What a deployment makes of the entry of its cluster.
abbrev pub deployment_entry :
    HypershiftDeployment → ManifestWork → Bool → ClusterStatus → ClusterStatus
deployment_entry hd mw true c = clear_deployment c
deployment_entry hd mw false c = set_deployment hd mw c

deployment-keeps_name :
    (hd : HypershiftDeployment) (mw : ManifestWork) (delete : Bool) (c : ClusterStatus)
    → (deployment_entry hd mw delete c).name ≡ c.name
unfolding clear_deployment set_deployment
deployment-keeps_name hd mw true c = refl
deployment-keeps_name hd mw false c = refl

module _ {W : Type 0} (env : Env W) where
  -- The update of an AuthRealm's status for a manifest work gives an error and writes nothing if the
  -- status has no entry for the strategy and the cluster of the ClusterOAuth. Else it patches the
  -- status to one in which that entry has the work's name, conditions and resource status, or none
  -- of them if the work is being deleted, and in which the entry for every other strategy or cluster
  -- is as before.
  pub work_status_written :
      (auth_realm : AuthRealm) (c : ClusterOAuth) (work : ManifestWork) (delete : Bool)
      (n m : String) (w : W)
      → ((e : Error) × (update_authrealm_status_manifest_work_conditions env auth_realm c work
              delete w
            ≡ (err e, w))
          × (entry c.strategy_reference.name c.meta.namespace auth_realm.strategies ≡ none))
        ⊎ ((ss : List StrategySummary) × (old : ClusterStatus)
            × (update_authrealm_status_manifest_work_conditions env auth_realm c work delete w
                ≡ (env.auth_realms.patch_status auth_realm (record auth_realm { strategies = ss })
                      >> pure tt)
                    w)
            × (entry c.strategy_reference.name c.meta.namespace auth_realm.strategies ≡ some old)
            × (entry n m ss ≡ (
                if c.strategy_reference.name == n && c.meta.namespace == m
                then some (set_manifest_work work delete old)
                else entry n m auth_realm.strategies)))
  unfolding update_authrealm_status_manifest_work_conditions update_work_at
  work_status_written auth_realm c work delete n m w =
      let strategy = c.strategy_reference.name in
      let cluster = c.meta.namespace in
      elim (entry-missing auth_realm.strategies strategy cluster) [
        | inl (p, missing) ↦ inl (strategy_not_found c, rw p refl, missing)
        | inr (inl (i, p, missing)) ↦ inl (cluster_not_found c, rw p refl, missing)
        | inr (inr (i, j, p)) ↦
            let f = set_manifest_work work delete in
            let (old, there, changed) =
              entry-modify auth_realm.strategies strategy cluster n m i j f (keeps_name work delete)
                p in
            inr (
              modify_clusters i (modify_at j f) auth_realm.strategies,
              old,
              rw p refl,
              there,
              changed,
            )
      ]

module _ {W : Type 0} (env : Env W) (hub : Hub W) where
  patched_with :
      (auth_realm : AuthRealm) (c : ClusterOAuth) (hd : HypershiftDeployment) (mw : ManifestWork)
      (delete : Bool) (i j : ℕ) (w : W)
      → (delete ≡ true)
        ⊎ (hub.manifest_works.get (record { name = hd.infra_id; namespace = hd.meta.namespace }) w
            ≡ ok mw)
      → update_deployment_at env hub (at i j) auth_realm c hd delete w
        ≡ (env.auth_realms.patch_status auth_realm (record auth_realm {
          strategies =
              modify_clusters i (modify_at j (deployment_entry hd mw delete)) auth_realm.strategies;
        })
              >> pure done)
            w
  unfolding update_deployment_at new_status
  patched_with auth_realm c hd mw true i j w got_work = refl
  patched_with auth_realm c hd mw false i j w (inl h) = absurd (ground arith)
  patched_with auth_realm c hd mw false i j w (inr got_work) = rw got_work refl

  not_patched :
      (auth_realm : AuthRealm) (c : ClusterOAuth) (hd : HypershiftDeployment) (delete : Bool)
      (i : ℕ) (w : W)
      → (update_deployment_at env hub no_strategy auth_realm c hd delete w
          ≡ (err (strategy_not_found c), w))
        × (update_deployment_at env hub (no_cluster i) auth_realm c hd delete w
            ≡ (err (cluster_not_found c), w))
  unfolding update_deployment_at
  not_patched auth_realm c hd delete i w = (refl, refl)

  -- If a hypershift deployment is being deleted or its manifest work is got, the update of an
  -- AuthRealm's status for the deployment gives an error and writes nothing where the status has
  -- no entry for the strategy and the cluster of the ClusterOAuth. Else it patches the status to
  -- one in which that entry has the name, conditions and phase of the deployment and the status of
  -- its manifest work, or none of both if the deployment is being deleted, and in which every
  -- other entry is as before.
  pub deployment_status_written :
      (auth_realm : AuthRealm) (c : ClusterOAuth) (hd : HypershiftDeployment) (mw : ManifestWork)
      (delete : Bool) (n m : String) (w : W)
      → (delete ≡ true)
        ⊎ (hub.manifest_works.get (record { name = hd.infra_id; namespace = hd.meta.namespace }) w
            ≡ ok mw)
      → ((e : Error) × (update_authrealm_status_hypershift_deployment_conditions env hub auth_realm
              c hd delete w
            ≡ (err e, w))
          × (entry c.strategy_reference.name c.meta.namespace auth_realm.strategies ≡ none))
        ⊎ ((ss : List StrategySummary) × (old : ClusterStatus)
            × (update_authrealm_status_hypershift_deployment_conditions env hub auth_realm c hd
                  delete w
                ≡ (env.auth_realms.patch_status auth_realm (record auth_realm { strategies = ss })
                      >> pure done)
                    w)
            × (entry c.strategy_reference.name c.meta.namespace auth_realm.strategies ≡ some old)
            × (entry n m ss ≡ (
                if c.strategy_reference.name == n && c.meta.namespace == m
                then some (deployment_entry hd mw delete old)
                else entry n m auth_realm.strategies)))
  unfolding update_authrealm_status_hypershift_deployment_conditions
  deployment_status_written auth_realm c hd mw delete n m w got_work =
      let strategy = c.strategy_reference.name in
      let cluster = c.meta.namespace in
      elim (entry-missing auth_realm.strategies strategy cluster) [
        | inl (p, missing) ↦
            inl (strategy_not_found c, rw p (not_patched auth_realm c hd delete 0 w).0, missing)
        | inr (inl (i, p, missing)) ↦
            inl (cluster_not_found c, rw p (not_patched auth_realm c hd delete i w).1, missing)
        | inr (inr (i, j, p)) ↦
            let f = deployment_entry hd mw delete in
            let (old, there, changed) =
              entry-modify auth_realm.strategies strategy cluster n m i j f
                (deployment-keeps_name hd mw delete) p in
            inr (
              modify_clusters i (modify_at j f) auth_realm.strategies,
              old,
              rw p (patched_with auth_realm c hd mw delete i j w got_work),
              there,
              changed,
            )
      ]
