-- ===== src/AuthRealm/Quiescence.antt =====
-- The state of the cluster in which an AuthRealm loses its finalizer.
use idp_mgmt_operator.Base.{
  ℕ, zero, suc, true, false, List, ◌≡◌, ◌≢◌, ◌⊎◌, inl, inr, sym, ◌∙◌, arith,
}
use idp_mgmt_operator.Api.Action.{
  ok, CtrlResult, done, pure, read, unless_requeue, >>=-eq-ok, unless_requeue-eq-ok,
}
use idp_mgmt_operator.Api.Meta.{is_deleting}
use idp_mgmt_operator.Api.Identity.{AuthRealm, StrategyType}
use idp_mgmt_operator.Api.Client.{Env, all_namespaces}
use idp_mgmt_operator.Helpers.Names.{dex_operator_namespace, strategy_name}
use idp_mgmt_operator.AuthRealm.DexServer.{
  cluster_key, delete_if_found, process_dex_server_deletion,
}
use idp_mgmt_operator.AuthRealm.Reconcile.{Installer, reconcile_instance}
use idp_mgmt_operator.AuthRealm.Deletion.{
  drop_finalizer, delete_strategy, delete_strategies, count_served, delete_operator_objects,
  delete_dex_operator, process_authrealm_deletion,
}
use idp_mgmt_operator.AuthRealm.Absence.{
  IsAbsent, DexServerIsGone, delete_if_found-quiet, process_dex_server_deletion-quiet,
}

module _ {W : Type 0} (env : Env W) where
  -- `Get` says that there is no strategy of this type for the AuthRealm.
  abbrev pub StrategyIsAbsent : AuthRealm → StrategyType → W → Type 0
  StrategyIsAbsent auth_realm t w =
      IsAbsent env.strategies
        (record {
          name = strategy_name env.strategy_type_text auth_realm t;
          namespace = auth_realm.meta.namespace;
        })
        w

  delete_strategies-quiet :
      (auth_realm : AuthRealm) (w : W) {r : CtrlResult} {w' : W}
      → delete_strategies env auth_realm w ≡ (ok r, w')
      → r.requeue ≡ false
      → (w' ≡ w)
        × StrategyIsAbsent auth_realm StrategyType.backplane w
        × StrategyIsAbsent auth_realm StrategyType.hypershift w
  unfolding delete_strategies delete_strategy
  delete_strategies-quiet auth_realm w h quiet =
      let (r₁, v₁, first, quiet₁, rest₁) =
        unless_requeue-eq-ok (delete_strategy env auth_realm StrategyType.backplane)
          (unless_requeue (delete_strategy env auth_realm StrategyType.hypershift) (pure done)) w h
          quiet in
      let (r₂, v₂, second, quiet₂, rest₂) =
        unless_requeue-eq-ok (delete_strategy env auth_realm StrategyType.hypershift) (pure done) v₁
          rest₁ quiet in
      let (same, absent) = delete_if_found-quiet env.strategies _ w first quiet₁ in
      let (same₁, absent₁) = delete_if_found-quiet env.strategies _ v₁ second quiet₂ in
      (sym (cc rest₂) ∙ same₁ ∙ same, absent, rw same at absent₁)

  -- The objects of the operator that installs dex servers.
  abbrev pub OperatorIsGone : W → Type 0
  OperatorIsGone w =
      IsAbsent env.namespaces (cluster_key dex_operator_namespace) w
      × IsAbsent env.cluster_role_bindings (cluster_key "dex-operator-rolebinding") w
      × IsAbsent env.cluster_roles (cluster_key "dex-operator-manager-role") w

  delete_operator_objects-quiet :
      (n : ℕ) (w : W) {r : CtrlResult} {w' : W}
      → delete_operator_objects env n w ≡ (ok r, w')
      → r.requeue ≡ false
      → (w' ≡ w) × ((n ≢ 0) ⊎ OperatorIsGone w)
  unfolding delete_operator_objects
  delete_operator_objects-quiet (suc n) w h quiet = (cc, inl (λ e. absurd (omega arith)))
  delete_operator_objects-quiet zero w h quiet =
      let roles = delete_if_found env.cluster_roles (cluster_key "dex-operator-manager-role") in
      let bindings =
        delete_if_found env.cluster_role_bindings (cluster_key "dex-operator-rolebinding") in
      let (r₁, v₁, first, quiet₁, rest₁) =
        unless_requeue-eq-ok (delete_if_found env.namespaces (cluster_key dex_operator_namespace))
          (unless_requeue bindings (unless_requeue roles (pure done))) w h quiet in
      let (r₂, v₂, second, quiet₂, rest₂) =
        unless_requeue-eq-ok bindings (unless_requeue roles (pure done)) v₁ rest₁ quiet in
      let (r₃, v₃, third, quiet₃, rest₃) = unless_requeue-eq-ok roles (pure done) v₂ rest₂ quiet in
      let (same, absent) = delete_if_found-quiet env.namespaces _ w first quiet₁ in
      let (same₁, absent₁) = delete_if_found-quiet env.cluster_role_bindings _ v₁ second quiet₂ in
      let (same₂, absent₂) = delete_if_found-quiet env.cluster_roles _ v₂ third quiet₃ in
      let start : v₂ ≡ w = same₁ ∙ same in
      (sym (cc rest₃) ∙ same₂ ∙ start, inr (absent, rw same at absent₁, rw start at absent₂))

  -- What the last step finds: if no AuthRealm is served by dex, the operator's objects are gone.
  abbrev pub OperatorIsSettled : W → Type 0
  OperatorIsSettled w =
      (auth_realms : List AuthRealm) × (env.auth_realms.list all_namespaces w ≡ ok auth_realms)
      × ((count_served env auth_realms ≢ 0) ⊎ OperatorIsGone w)

  delete_dex_operator-quiet :
      (w : W) {r : CtrlResult} {w' : W}
      → delete_dex_operator env w ≡ (ok r, w')
      → r.requeue ≡ false
      → (w' ≡ w) × OperatorIsSettled w
  unfolding delete_dex_operator
  delete_dex_operator-quiet w h quiet =
      let (auth_realms, v, listed, rest) =
        >>=-eq-ok (read (env.auth_realms.list all_namespaces))
          (λ auth_realms. delete_operator_objects env (count_served env auth_realms)) w h in
      let start : v ≡ w = sym (cc listed) in
      let (same, gone) =
        delete_operator_objects-quiet (count_served env auth_realms) v rest quiet in
      (same ∙ start, (auth_realms, cc, rw start at gone))

  process_authrealm_deletion-quiet :
      (auth_realm : AuthRealm) (w : W) {r : CtrlResult} {w' : W}
      → process_authrealm_deletion env auth_realm w ≡ (ok r, w')
      → r.requeue ≡ false
      → (w' ≡ w)
        × DexServerIsGone env auth_realm w
        × StrategyIsAbsent auth_realm StrategyType.backplane w
        × StrategyIsAbsent auth_realm StrategyType.hypershift w
        × OperatorIsSettled w
  unfolding process_authrealm_deletion
  process_authrealm_deletion-quiet auth_realm w h quiet =
      let (r₁, v₁, first, quiet₁, rest₁) =
        unless_requeue-eq-ok (process_dex_server_deletion env auth_realm)
          (unless_requeue (delete_strategies env auth_realm) (delete_dex_operator env)) w h quiet in
      let (r₂, v₂, second, quiet₂, rest₂) =
        unless_requeue-eq-ok (delete_strategies env auth_realm) (delete_dex_operator env) v₁ rest₁
          quiet in
      let (same, gone) = process_dex_server_deletion-quiet env auth_realm w first quiet₁ in
      let (same₁, backplane, hypershift) = delete_strategies-quiet auth_realm v₁ second quiet₂ in
      let (same₂, settled) = delete_dex_operator-quiet v₂ rest₂ quiet in
      let start : v₂ ≡ w = same₁ ∙ same in
      (same₂ ∙ start, gone, rw same at backplane, rw same at hypershift, rw start at settled)

  -- If the reconciliation of an AuthRealm that is being deleted succeeds and does not ask to come
  -- back, then all that it has done is the write that drops the finalizer, and the cluster showed
  -- before that all is gone: there were no dex clients and no dex servers in the AuthRealm's
  -- namespace, no such namespace, no strategy of either type, and either some AuthRealm that is not
  -- being deleted was served by dex, or the dex operator's namespace, role binding and role were
  -- not there.
  pub finalizer_is_dropped_last :
      (installer : Installer W) (target : AuthRealm) (w : W) {r : CtrlResult} {w' : W}
      → is_deleting target.meta ≡ true
      → reconcile_instance env installer target w ≡ (ok r, w')
      → r.requeue ≡ false
      → (drop_finalizer env target w ≡ (ok r, w'))
        × DexServerIsGone env target w
        × StrategyIsAbsent target StrategyType.backplane w
        × StrategyIsAbsent target StrategyType.hypershift w
        × OperatorIsSettled w
  unfolding reconcile_instance
  finalizer_is_dropped_last installer target w deleting h quiet =
      let (r₁, v, deletion, quiet₁, rest) =
        unless_requeue-eq-ok (process_authrealm_deletion env target) (drop_finalizer env target) w
          (rw deleting at h) quiet in
      let (same, gone, backplane, hypershift, settled) =
        process_authrealm_deletion-quiet target w deletion quiet₁ in
      (rw same at rest, gone, backplane, hypershift, settled)
