-- ===== src/Watches/Reach.antt =====
-- Which strategies an event of a placement reaches.
use idp_mgmt_operator.Base.{
  Bool-cases, List, [], ◌∷◌, ◌≡◌, refl, ◌==◌, ◌↔◌, inl, inr, Any, arith, eq_iff,
}
use idp_mgmt_operator.Api.Action.{ok}
use idp_mgmt_operator.Api.Meta.{ObjectKey, key_of}
use idp_mgmt_operator.Api.Identity.{AuthRealm, Strategy}
use idp_mgmt_operator.Api.Objects.{Placement}
use idp_mgmt_operator.Api.Client.{Env, in_namespace}
use idp_mgmt_operator.Helpers.Names.{placement_strategy_name}
use idp_mgmt_operator.Watches.Maps.{
  listed, derived_name, strategies_derived, strategies_of_placement,
}

-- The key is among the requests.
abbrev pub IsAmongRequests : ObjectKey → List ObjectKey → Type 0
IsAmongRequests key keys = Any (λ k. k ≡ key) keys

module _ {W : Type 0} (env : Env W) where
  -- A strategy with that key refers to the name that is made from the placement's.
  abbrev pub RefersTo : Placement → ObjectKey → Strategy → Type 0
  RefersTo pl key s = (s.placement_ref ≡ derived_name env s pl) × (key_of s.meta ≡ key)

  derived_iff :
      (pl : Placement) (key : ObjectKey) (ss : List Strategy)
      → IsAmongRequests key (strategies_derived env pl ss) ↔ Any (RefersTo pl key) ss
  unfolding strategies_derived
  derived_iff pl key [] = (λ h. h, λ h. h)
  derived_iff pl key (s ∷ ss) =
      let (there, back) = derived_iff pl key ss in
      elim (Bool-cases (s.placement_ref == derived_name env s pl)) [
        | inl e ↦
            let same : s.placement_ref ≡ derived_name env s pl =
              (eq_iff s.placement_ref (derived_name env s pl)).0 e in
            rw e (
              λ h. elim h [ inl k ↦ inl (same, k) | inr rest ↦ inr (there rest) ],
              λ h. elim h [ inl (_, k) ↦ inl k | inr rest ↦ inr (back rest) ],
            )
        | inr e ↦ rw e (
          λ h. inr (there h),
          λ h. elim h [
            | inl (same, k) ↦
                absurd (ground (arith, eq_iff s.placement_ref (derived_name env s pl)))
            | inr rest ↦ back rest
          ],
        )
      ]

  -- A placement event makes the strategy controller reconcile a key exactly if a strategy with that
  -- key is in the list of the placement's namespace and its placement reference is the placement's
  -- name followed by a dash and the text of the strategy's type.
  pub strategies_enqueued_iff :
      (pl : Placement) (key : ObjectKey) (w : W)
      → IsAmongRequests key (strategies_of_placement env pl w)
        ↔ Any (RefersTo pl key) (listed (env.strategies.list (in_namespace pl.meta.namespace) w))
  unfolding strategies_of_placement
  strategies_enqueued_iff pl key w = derived_iff pl key _

  is_derived_from :
      (auth_realm : AuthRealm) (s : Strategy) (pl : Placement) (ss : List Strategy)
      → auth_realm.spec.placement_ref ≡ pl.meta.name
      → s.placement_ref ≡ placement_strategy_name env.strategy_type_text s auth_realm
      → Any (λ s'. s' ≡ s) ss
      → Any (RefersTo pl (key_of s.meta)) ss
  unfolding placement_strategy_name
  is_derived_from auth_realm s pl [] named placed member = member
  is_derived_from auth_realm s pl (s' ∷ ss) named placed member = elim member [
    | inl same ↦ inl (rw same (rw named at placed), rw same refl)
    | inr rest ↦ inr (is_derived_from auth_realm s pl ss named placed rest)
  ]

  -- An event of the placement that an AuthRealm refers to reaches its strategies: if the list of
  -- strategies in the placement's namespace is got and has a strategy whose placement reference is
  -- the name that the strategy controller gives it for that AuthRealm, then that strategy's key is
  -- among those that the event makes the controller reconcile.
  pub realm_placement_reaches_strategy :
      (auth_realm : AuthRealm) (s : Strategy) (pl : Placement) (ss : List Strategy) (w : W)
      → env.strategies.list (in_namespace pl.meta.namespace) w ≡ ok ss
      → Any (λ s'. s' ≡ s) ss
      → auth_realm.spec.placement_ref ≡ pl.meta.name
      → s.placement_ref ≡ placement_strategy_name env.strategy_type_text s auth_realm
      → IsAmongRequests (key_of s.meta) (strategies_of_placement env pl w)
  realm_placement_reaches_strategy auth_realm s pl ss w got_list member named placed =
      (strategies_enqueued_iff pl (key_of s.meta) w).1
        (rw got_list (is_derived_from auth_realm s pl ss named placed member))
