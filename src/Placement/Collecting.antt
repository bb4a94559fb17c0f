-- ===== src/Placement/Collecting.antt =====
-- What the loop of `deleteObsoleteConfigs` over the dex clients gives.
use idp_mgmt_operator.Base.{
  String, Bool, true, false, not, ◌||◌, List, [], ◌∷◌, ◌≡◌, refl, arith, if◌then◌else◌,
}
use idp_mgmt_operator.Api.Action.{Action, Result, ok, CtrlResult, pure, ◌>>=◌, >>=-eq-ok}
use idp_mgmt_operator.Api.Meta.{is_deleting}
use idp_mgmt_operator.Api.Identity.{AuthRealm}
use idp_mgmt_operator.Api.Objects.{Placement, DexClient}
use idp_mgmt_operator.Api.Client.{Env}
use idp_mgmt_operator.Placement.Decisions.{in_placement_decision}
use idp_mgmt_operator.Placement.Delete.{
  Collected, stop, collected, collect_also, add_obsolete, delete_cluster_oauth_config,
  collect_obsolete, delete_dex_clients, delete_collected, cluster_of,
}

module _ {W : Type 0} (env : Env W) where
  -- What the placement decides on a cluster.
  abbrev pub decision : Placement → String → W → Result Bool
  decision placement cluster_name w = (in_placement_decision env cluster_name placement w).0

  collect_also-eq-collected :
      (c : DexClient) (r : Collected) (ds : List DexClient)
      → collect_also c r ≡ collected ds
      → (es : List DexClient) × (r ≡ collected es) × (ds ≡ c ∷ es)
  collect_also-eq-collected c (stop r) ds h = absurd (cc)
  collect_also-eq-collected c (collected es) ds h = (es, refl, cc)

  after_requeue-collected :
      (c : DexClient) (rest : Action W Collected) (result : CtrlResult) (b : Bool) (w : W)
      {ds : List DexClient} {w' : W}
      → (if b then pure (stop result) else rest >>= λ r. pure (collect_also c r)) w
        ≡ (ok (collected ds), w')
      → (es : List DexClient) × (rest w ≡ (ok (collected es), w')) × (ds ≡ c ∷ es)
  after_requeue-collected c rest result true w h = absurd (cc)
  after_requeue-collected c rest result false w {ds} h =
      let (r, v, first, final) = >>=-eq-ok rest (λ r. pure (collect_also c r)) w h in
      let (es, e, e') = collect_also-eq-collected c r ds (cc) in (es, cc, e')

  pub add_obsolete-collected :
      (c : DexClient) (rest : Action W Collected) (result : CtrlResult) (w : W)
      {ds : List DexClient} {w' : W}
      → add_obsolete env c rest result w ≡ (ok (collected ds), w')
      → (es : List DexClient) × (rest w ≡ (ok (collected es), w')) × (ds ≡ c ∷ es)
  unfolding add_obsolete
  add_obsolete-collected c rest result w h =
      after_requeue-collected c rest result result.requeue w h

  -- A loop that stops asks to come back.
  abbrev Requeues : Action W Collected → Type 0
  Requeues rest = (u : W) (r : CtrlResult) (w' : W) → rest u ≡ (ok (stop r), w') → r.requeue ≡ true

  collect_also-eq-stop :
      (c : DexClient) (o : Collected) (r : CtrlResult) → collect_also c o ≡ stop r → o ≡ stop r
  collect_also-eq-stop c (stop r') r h = h
  collect_also-eq-stop c (collected es) r h = absurd (cc)

  after_requeue-stop :
      (c : DexClient) (rest : Action W Collected) (result : CtrlResult) (b : Bool)
      → result.requeue ≡ b
      → Requeues rest
      → Requeues (if b then pure (stop result) else rest >>= λ r. pure (collect_also c r))
  after_requeue-stop c rest result true e stops u r w' h =
      let same : result ≡ r = cc in rw (same) at e
  after_requeue-stop c rest result false e stops u r w' h =
      let (o, v, first, final) = >>=-eq-ok rest (λ r. pure (collect_also c r)) u h in
      let o_stops : o ≡ stop r = collect_also-eq-stop c o r (cc) in
      stops u r v (rw o_stops at first)

  deleted-stop :
      (placement : Placement) (c : DexClient) (rest : Action W Collected)
      → Requeues rest
      → Requeues
          (delete_cluster_oauth_config env (cluster_of c) placement >>= add_obsolete env c rest)
  unfolding add_obsolete
  deleted-stop placement c rest stops v r w' h =
      let (result, u, first, final) =
        >>=-eq-ok (delete_cluster_oauth_config env (cluster_of c) placement)
          (add_obsolete env c rest) v h in
      after_requeue-stop c rest result result.requeue refl stops u r w' final

  step-stop :
      (placement : Placement) (c : DexClient) (rest : Action W Collected) (b : Bool)
      → Requeues rest
      → Requeues (
          if b
          then (delete_cluster_oauth_config env (cluster_of c) placement
              >>= add_obsolete env c rest)
          else rest)
  step-stop placement c rest true stops = deleted-stop placement c rest stops
  step-stop placement c rest false stops = stops

  pub collect_obsolete-stop :
      (auth_realm : AuthRealm) (placement : Placement) (cs : List DexClient)
      → Requeues (collect_obsolete env auth_realm placement cs)
  unfolding collect_obsolete
  collect_obsolete-stop auth_realm placement [] u r w' h = absurd (cc)
  collect_obsolete-stop auth_realm placement (c ∷ cs) u r w' h =
      let rest = collect_obsolete env auth_realm placement cs in
      let (decided, v, first, next) =
        >>=-eq-ok (in_placement_decision env (cluster_of c) placement)
          (λ decided.
            if not decided || is_deleting auth_realm.meta
            then (delete_cluster_oauth_config env (cluster_of c) placement
                >>= add_obsolete env c rest)
            else rest)
          u h in
      step-stop placement c rest (not decided || is_deleting auth_realm.meta)
        (collect_obsolete-stop auth_realm placement cs) v r w' next

  pub delete_collected-quiet :
      (o : Collected) (w : W) {r : CtrlResult} {w' : W}
      → ((r' : CtrlResult) → o ≡ stop r' → r'.requeue ≡ true)
      → delete_collected env o w ≡ (ok r, w')
      → r.requeue ≡ false
      → (ds : List DexClient) × (o ≡ collected ds) × (delete_dex_clients env ds w ≡ (ok r, w'))
  unfolding delete_collected
  delete_collected-quiet (stop r') w stops h quiet = absurd (ground (arith, stops r' refl))
  delete_collected-quiet (collected ds) w stops h quiet = (ds, refl, h)
