-- ===== src/OAuth/Hypershift.antt =====
-- controllers/clusteroauth/hypershift.go: the manager of a hosted cluster. Its OAuth stands among
-- the items of the configuration of its hypershift deployment.
use mathlib.Core.List as lists
use Prim.Native.String.{◌++◌}
use idp_mgmt_operator.Base.{
  ℕ, String, Bool, Option, none, some, List, [], ◌∷◌, ◌==◌, any, split_at, if◌then◌else◌,
}
use idp_mgmt_operator.Api.Action.{
  Action, Result, ok, panic, is_not_found, Attempt, got, failed, attempt, is_already_exists,
  CtrlResult, done, pure, fail, read, lift, non_nil, ◌>>=◌, ◌>>◌,
}
use idp_mgmt_operator.Api.Meta.{key_of, new_meta, is_deleting, lookup, Labels}
use idp_mgmt_operator.Api.Identity.{ClusterOAuth, IdentityProvider}
use idp_mgmt_operator.Api.Objects.{Secret}
use idp_mgmt_operator.Api.Client.{Env, in_namespace}
use idp_mgmt_operator.Api.Work.{Hub, ConfigMap, HypershiftDeployment}
use idp_mgmt_operator.Helpers.Names.{
  config_map_original_oauth_name, hypershift_deployment_force_reconcile_label, dashed,
}
use idp_mgmt_operator.Helpers.Hypershift.{get_hypershift_deployment}
use idp_mgmt_operator.OAuth.Aggregate.{
  original_key, secret_for, is_last_deleting, aggregate_cluster_oauths, get_original_oauth,
  delete_original_oauth,
}
use idp_mgmt_operator.OAuth.Items.{
  restore_item, configuration_of, search_configuration, item_at, items_of, with_items, with_oauth,
}
use idp_mgmt_operator.OAuth.Report.{report_failed_push}

-- `strings.ReplaceAll(s, ":", "-")`
abbrev pub joined : List String → String
joined [] = ""
joined (s ∷ []) = s
joined (s ∷ t ∷ ss) = s ++ ("-" ++ joined (t ∷ ss))

-- `m[key] = value`
unfoldable pub put_label : String → String → Labels → Labels
put_label key value [] = (key, value) ∷ []
put_label key value ((k, v) ∷ m) =
    if k == key then (key, value) ∷ m else (k, v) ∷ put_label key value m

-- The label that makes the deployment be reconciled; an assignment to a label map that is not
-- there would panic.
unfoldable pub with_force_reconcile : String → Labels → Result Labels
with_force_reconcile now [] = panic
with_force_reconcile now (l ∷ ls) =
    ok (put_label hypershift_deployment_force_reconcile_label (joined (split_at 58 now)) (l ∷ ls))

-- The search among the references, with its `break`.
unfoldable pub is_listed : String → List String → Bool
is_listed name refs = any (λ r. r == name) refs

module _ {W : Type 0} (hub : Hub W) where
  -- The config map of `Save`, where the deployment has no OAuth and where it has one
  unfoldable pub save_item : ClusterOAuth → Option String → Action W CtrlResult
  save_item cluster_oauth none =
      hub.config_maps.create (record {
        meta = new_meta config_map_original_oauth_name cluster_oauth.meta.namespace;
        contents = [];
      })
      >> pure done
  save_item cluster_oauth (some raw) = do
    b ← lift (hub.yaml_to_json raw)
    created ← hub.config_maps.create (record {
      meta = new_meta config_map_original_oauth_name cluster_oauth.meta.namespace;
      contents = ("json", b) ∷ ("yaml", raw) ∷ [];
    })
    pure done

  -- `Save`, after the look for the config map: any error of it counts as its absence
  unfoldable pub save_unless_saved : ClusterOAuth → Attempt ConfigMap → Action W CtrlResult
  save_unless_saved cluster_oauth (got cm) = pure done
  save_unless_saved cluster_oauth (failed e) =
      get_hypershift_deployment hub cluster_oauth.meta.namespace >>= λ hd.
      save_item cluster_oauth (item_at (items_of hd) (search_configuration hub hd "cluster"))

  -- `Save`
  unfoldable pub save : ClusterOAuth → Action W CtrlResult
  save cluster_oauth =
      attempt (read (hub.config_maps.get (original_key cluster_oauth.meta.namespace)))
      >>= save_unless_saved cluster_oauth

  -- What follows the look for the original OAuth in `Unmanage`.
  unfoldable pub restore :
      ClusterOAuth → HypershiftDeployment → ℕ → Attempt ConfigMap → Action W CtrlResult
  restore cluster_oauth hd index (got original) = do
    updated ←
        hub.hypershift_deployments.update
          (with_items (restore_item (lookup "json" original.contents) index (items_of hd)) hd)
    delete_original_oauth hub cluster_oauth.meta.namespace
    pure done
  restore cluster_oauth hd index (failed e) = if is_not_found e then pure done else fail e

  unfoldable pub restore_found :
      ClusterOAuth → HypershiftDeployment → Option ℕ → Action W CtrlResult
  restore_found cluster_oauth hd none = pure done
  restore_found cluster_oauth hd (some index) =
      attempt (get_original_oauth hub cluster_oauth) >>= restore cluster_oauth hd index

  -- `Unmanage` of the last ClusterOAuth of a cluster
  unfoldable pub unmanage_last : ClusterOAuth → Action W CtrlResult
  unmanage_last cluster_oauth = get_hypershift_deployment hub cluster_oauth.meta.namespace >>= λ hd.
      restore_found cluster_oauth hd (search_configuration hub hd "cluster")

module _ {W : Type 0} (env : Env W) where
  unfoldable pub update_existing : Secret → Attempt Secret → Action W (Unit {0})
  update_existing secret (got s) = pure tt
  update_existing secret (failed e) =
      if is_already_exists e then env.secrets.update secret >> pure tt else fail e

  -- A copy of the secret of a ClusterOAuth in the namespace of the deployment; its name comes back.
  unfoldable pub copy_secret : String → ClusterOAuth → Action W String
  copy_secret namespace c = do
    secret ← read (env.secrets.get (key_of c.meta))
    let new_secret = secret_for namespace c.meta.namespace secret
    created ← attempt (env.secrets.create new_secret)
    update_existing new_secret created
    pure new_secret.meta.name

  -- The inner loop of `Push`: the name of the copy is put among the references unless it was there
  -- when the loop began; the references come back.
  unfoldable pub push_secrets :
      String → ClusterOAuth → Bool → List String → List IdentityProvider → Action W (List String)
  push_secrets namespace c found refs [] = pure refs
  push_secrets namespace c found refs (idp ∷ idps) = copy_secret namespace c >>= λ name.
      push_secrets namespace c found (if found then refs else lists.◌++◌ refs (name ∷ [])) idps

  -- The loop of `Push` over the ClusterOAuths.
  unfoldable pub push_all_secrets :
      String → List String → List ClusterOAuth → Action W (List String)
  push_all_secrets namespace refs [] = pure refs
  push_all_secrets namespace refs (c ∷ cs) =
      if is_deleting c.meta
      then push_all_secrets namespace refs cs
      else (lift (non_nil c.oauth)
          >>= push_secrets namespace c (is_listed (dashed c.meta.namespace c.meta.name) refs) refs
          >>= λ refs'. push_all_secrets namespace refs' cs)

module _ {W : Type 0} (env : Env W) (hub : Hub W) where
  -- The update of the deployment in `Push`.
  unfoldable pub write_deployment : HypershiftDeployment → List String → Action W (Unit {0})
  write_deployment hd refs = do
    now ← read (λ w. ok (hub.now w))
    labels ← lift (with_force_reconcile now hd.meta.labels)
    updated ← hub.hypershift_deployments.update (record hd {
      meta = record (hd.meta) { labels = labels };
      configuration = some (record (configuration_of hd.configuration) { secret_refs = refs });
    })
    pure tt

  -- `Push`
  unfoldable pub push : ClusterOAuth → Action W (Unit {0})
  push cluster_oauth = do
    mc ←
        read (
          env.managed_clusters.get (record { name = cluster_oauth.meta.namespace; namespace = "" }))
    cluster_oauths ← read (env.cluster_oauths.list (in_namespace cluster_oauth.meta.namespace))
    oauth ← lift (aggregate_cluster_oauths cluster_oauths)
    data_ ← lift (hub.marshal_oauth oauth)
    found ← get_hypershift_deployment hub cluster_oauth.meta.namespace
    let hd = with_oauth hub data_ found
    refs ←
        push_all_secrets env hd.meta.namespace (configuration_of hd.configuration).secret_refs
          cluster_oauths
    write_deployment hd refs

  -- `Unmanage`
  unfoldable pub unmanage : ClusterOAuth → Action W CtrlResult
  unmanage cluster_oauth =
      read (env.cluster_oauths.list (in_namespace cluster_oauth.meta.namespace))
      >>= λ cluster_oauths.
          if is_last_deleting cluster_oauths
          then unmanage_last hub cluster_oauth
          else (attempt (push cluster_oauth)
              >>= report_failed_push env hub "updateHypershiftDeploymentFailed"
                  " failed to update HypershiftDeployment for cluster " cluster_oauth)
