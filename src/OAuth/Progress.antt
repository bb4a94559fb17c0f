-- ===== src/OAuth/Progress.antt =====
-- What the reconciler of a ClusterOAuth does with the result of `Save`.
use idp_mgmt_operator.Base.{
  String, false, Bool-cases, Option, none, some, ◌≡◌, refl, ◌==◌, arith, inl, inr, if◌then◌else◌,
}
use idp_mgmt_operator.Api.Action.{
  Action, Result, ok, err, panic, Error, Attempt, got, failed, attempt, CtrlResult, done, pure,
  fail, read, lift, continue, unless_requeue, ◌>>=◌,
}
use idp_mgmt_operator.Api.Object.{on_world, object, change, store}
use idp_mgmt_operator.Api.Identity.{ClusterOAuth, StrategyType, backplane, hypershift}
use idp_mgmt_operator.Api.Client.{Env}
use idp_mgmt_operator.Api.Work.{Hub, ConfigMap, ManagedClusterView}
use idp_mgmt_operator.Helpers.Names.{managed_cluster_view_oauth_name}
use idp_mgmt_operator.Helpers.Hypershift.{get_hypershift_deployment}
use idp_mgmt_operator.OAuth.Aggregate.{original_key}
use idp_mgmt_operator.OAuth.Backplane as backplane_mgr
use idp_mgmt_operator.OAuth.Hypershift as hypershift_mgr
use idp_mgmt_operator.OAuth.Reconcile.{
  save_and_push, unsupported, process_finalized, process_cluster_oauth,
}

-- A result that does not set `Requeue`; an error or a panic has none.
abbrev NoRequeueIn : Result CtrlResult → Type 0
NoRequeueIn (ok r) = r.requeue ≡ false
NoRequeueIn (err e) = Unit
NoRequeueIn panic = Unit

unfoldable EndsRound : {W : Type 0} → Action W CtrlResult → Type 0
EndsRound {W} m = (w : W) → NoRequeueIn (m w).0

pure-quiet : (W : Type 0) (r : CtrlResult) → r.requeue ≡ false → EndsRound (pure {W = W} r)
unfolding EndsRound
pure-quiet W r q w = q

fail-quiet : (W : Type 0) (e : Error) → EndsRound {W = W} (fail e)
unfolding EndsRound
fail-quiet W e w = tt

module _ {W : Type 0} where
  quiet_after :
      {A : Type 0} (f : A → Action W CtrlResult) (p : Result A × W)
      → ((a : A) (v : W) → NoRequeueIn (f a v).0)
      → NoRequeueIn (continue f p).0
  quiet_after f (ok a, v) h = h a v
  quiet_after f (err e, v) h = tt
  quiet_after f (panic, v) h = tt

  then_quiet :
      {A : Type 0} (m : Action W A) (f : A → Action W CtrlResult)
      → ((a : A) → EndsRound (f a))
      → EndsRound (m >>= f)
  unfolding EndsRound
  then_quiet m f h w = quiet_after f (m w) h

  quiet_or_next :
      (k : Action W CtrlResult) (p : Result CtrlResult × W)
      → NoRequeueIn p.0
      → ((v : W) → NoRequeueIn (k v).0)
      → NoRequeueIn (continue (λ r. if r.requeue then pure r else k) p).0
  quiet_or_next k (ok r, v) q h = rw q (h v)
  quiet_or_next k (err e, v) q h = tt
  quiet_or_next k (panic, v) q h = tt

  unless_requeue-quiet :
      (m k : Action W CtrlResult) → EndsRound m → EndsRound k → EndsRound (unless_requeue m k)
  unfolding EndsRound
  unless_requeue-quiet m k q h w = quiet_or_next k (m w) (q w) h

  on_world-quiet :
      (O : Type 0) (m : Action W CtrlResult) → EndsRound m → EndsRound (on_world {O = O} m)
  unfolding EndsRound
  on_world-quiet O m q (w, o) = q w

  quiet_by_equation :
      (p : Result CtrlResult × W) {r : CtrlResult} {w : W}
      → NoRequeueIn p.0
      → p ≡ (ok r, w)
      → r.requeue ≡ false
  quiet_by_equation (ok r, v) q h = ground arith
  quiet_by_equation (err e, v) q h = absurd (ground arith)
  quiet_by_equation (panic, v) q h = absurd (ground arith)

module _ {W : Type 0} (hub : Hub W) where
  done-quiet : EndsRound (pure {W = W} done)
  done-quiet = pure-quiet W done refl

  view_result-quiet :
      (c : ClusterOAuth) (view : ManagedClusterView)
      → EndsRound (backplane_mgr.save_view_result hub c view)
  unfolding backplane_mgr.save_view_result
  view_result-quiet c view = elim (Bool-cases (view.result == "")) [
    | inl e ↦ rw e (pure-quiet W backplane_mgr.in_10s refl)
    | inr e ↦ rw e (
        then_quiet (lift (hub.json_to_yaml view.result)) _ λ b.
          then_quiet
            (hub.config_maps.create (backplane_mgr.original_config_map hub view b c.meta.namespace))
            _
            λ cm.
              then_quiet
                (backplane_mgr.delete_ignoring_not_found hub hub.managed_cluster_views.delete view)
                _ λ u. done-quiet)
  ]

  backplane_unsaved-quiet :
      (c : ClusterOAuth) (a : Attempt ConfigMap)
      → EndsRound (backplane_mgr.save_unless_saved hub c a)
  unfolding backplane_mgr.save_unless_saved backplane_mgr.save_managed_cluster_view_for_oauth_result
  backplane_unsaved-quiet c (got cm) = done-quiet
  backplane_unsaved-quiet c (failed e) =
      then_quiet
        (hub.apply_custom_resource "managedclusterview/managed-cluster-view-oauth.yaml"
          managed_cluster_view_oauth_name c.meta.namespace)
        _
        λ u.
          then_quiet
            (read (hub.managed_cluster_views.get (backplane_mgr.view_key c.meta.namespace))) _
            λ view. view_result-quiet c view

  backplane_save-quiet : (c : ClusterOAuth) → EndsRound (backplane_mgr.save hub c)
  unfolding backplane_mgr.save
  backplane_save-quiet c =
      then_quiet (attempt (read (hub.config_maps.get (original_key c.meta.namespace)))) _
        λ a. backplane_unsaved-quiet c a

  save_item-quiet :
      (c : ClusterOAuth) (item : Option String) → EndsRound (hypershift_mgr.save_item hub c item)
  unfolding hypershift_mgr.save_item
  save_item-quiet c none = then_quiet (hub.config_maps.create _) _ λ cm. done-quiet
  save_item-quiet c (some raw) =
      then_quiet (lift (hub.yaml_to_json raw)) _
        λ b. then_quiet (hub.config_maps.create _) _ λ cm. done-quiet

  hypershift_unsaved-quiet :
      (c : ClusterOAuth) (a : Attempt ConfigMap)
      → EndsRound (hypershift_mgr.save_unless_saved hub c a)
  unfolding hypershift_mgr.save_unless_saved
  hypershift_unsaved-quiet c (got cm) = done-quiet
  hypershift_unsaved-quiet c (failed e) =
      then_quiet (get_hypershift_deployment hub c.meta.namespace) _ λ hd. save_item-quiet c _

  hypershift_save-quiet : (c : ClusterOAuth) → EndsRound (hypershift_mgr.save hub c)
  unfolding hypershift_mgr.save
  hypershift_save-quiet c =
      then_quiet (attempt (read (hub.config_maps.get (original_key c.meta.namespace)))) _
        λ a. hypershift_unsaved-quiet c a

module _ {W : Type 0} (env : Env W) (hub : Hub W) where
  save_and_push-quiet :
      (type : StrategyType) (c : ClusterOAuth) → EndsRound (save_and_push env hub type c)
  unfolding save_and_push
  save_and_push-quiet hypershift c =
      unless_requeue-quiet (hypershift_mgr.save hub c) _ (hypershift_save-quiet hub c)
        (then_quiet (hypershift_mgr.push env hub c) _ λ u. done-quiet hub)
  save_and_push-quiet backplane c =
      unless_requeue-quiet (backplane_mgr.save hub c) _ (backplane_save-quiet hub c)
        (then_quiet (backplane_mgr.push env hub c) _ λ u. done-quiet hub)
  save_and_push-quiet (StrategyType.other t) c =
      fail-quiet W (unsupported env hub (StrategyType.other t) c)

  finalized-quiet : (c : ClusterOAuth) → EndsRound (process_finalized env hub c)
  unfolding process_finalized
  finalized-quiet c = then_quiet (read (env.strategies.get _)) _ λ s. save_and_push-quiet s.type c

  process-quiet : EndsRound (process_cluster_oauth env hub)
  unfolding process_cluster_oauth
  process-quiet = then_quiet (change _) _ λ u.
      then_quiet (store env.cluster_oauths.update) _
        λ u'. then_quiet object _ λ c. on_world-quiet ClusterOAuth _ (finalized-quiet c)

  -- `processClusterOAuth` never succeeds with a result that sets `Requeue`, so the failure branch of
  -- `Reconcile` always has an error from which it can take the message.
  pub process_never_requeues :
      (c : ClusterOAuth) (w : W) {r : CtrlResult} {s : W × ClusterOAuth}
      → process_cluster_oauth env hub (w, c) ≡ (ok r, s)
      → r.requeue ≡ false
  unfolding EndsRound
  process_never_requeues c w {r} h =
      quiet_by_equation (process_cluster_oauth env hub (w, c)) (process-quiet (w, c)) h
