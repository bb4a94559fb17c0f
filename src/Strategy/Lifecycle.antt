-- ===== src/Strategy/Lifecycle.antt =====
-- When a strategy that is being deleted loses its finalizer, and what an update does.
use idp_mgmt_operator.Base.{
  ℕ, suc, ◌-◌, String, true, false, Option, none, some, List, [], ◌∷◌, ◌≡◌, ◌==◌, ◌⊎◌, refl, ◌∙◌,
  Bool-cases, inl, inr, if◌then◌else◌, arith, length, get_elem?, set,
}
use idp_mgmt_operator.Api.Action.{
  Action, Result, ok, err, panic, CtrlResult, done, requeue_in_1s, lift, fail, crash,
  unless_requeue, continue_assoc, is_not_found, pure, or_not_found, ◌>>=◌, ◌>>◌,
}
use idp_mgmt_operator.Api.Meta.{is_deleting, OwnerReference}
use idp_mgmt_operator.Api.Identity.{AuthRealm, Strategy}
use idp_mgmt_operator.Api.Objects.{Placement}
use idp_mgmt_operator.Api.Client.{Env}
use idp_mgmt_operator.Helpers.Names.{placement_strategy_name}
use idp_mgmt_operator.Helpers.Lookup.{get_authrealm_from_strategy}
use idp_mgmt_operator.Strategy.Owners.{
  is_last_owner_reference, last_index_of_uid, overwrite, remove_at, remove_owner_reference,
}
use idp_mgmt_operator.Strategy.Reconcile.{
  release_placement, process_strategy_deletion, drop_finalizer, reconcile_instance,
  set_owner_references,
}

-- The last of the references `r ∷ refs`.
abbrev pub last_owner : OwnerReference → List OwnerReference → OwnerReference
last_owner r [] = r
last_owner r (s ∷ refs) = last_owner s refs

-- The references with the last one of an owner replaced; there is nothing where there is none.
abbrev pub handed_over :
    OwnerReference → String → List OwnerReference → Option (List OwnerReference)
handed_over last uid [] = none
handed_over last uid (r ∷ refs) = elim (handed_over last uid refs) [
  | some refs' ↦ some (r ∷ refs')
  | none ↦ if r.uid == uid then some (last ∷ refs) else none
]

abbrev pub or_same : List OwnerReference → Option (List OwnerReference) → List OwnerReference
or_same refs none = refs
or_same refs (some refs') = refs'

-- The last reference stands at the last index.
get_elem?-last :
    (r : OwnerReference) (refs : List OwnerReference)
    → get_elem? (r ∷ refs) (length refs) ≡ some (last_owner r refs)
get_elem?-last r [] = refl
get_elem?-last r (s ∷ refs) = get_elem?-last s refs

handed_over_lem :
    (last : OwnerReference) (uid : String) (refs : List OwnerReference)
    → ((last_index_of_uid uid refs ≡ none) × (handed_over last uid refs ≡ none))
      ⊎ ((i : ℕ) × (last_index_of_uid uid refs ≡ some i)
          × (handed_over last uid refs ≡ some (set refs i last)))
unfolding last_index_of_uid
handed_over_lem last uid [] = inl (refl, refl)
handed_over_lem last uid (r ∷ refs) = elim (handed_over_lem last uid refs) [
  | inr (i, e, e') ↦ inr (suc i, rw e refl, rw e' refl)
  | inl (e, e') ↦ elim (Bool-cases (r.uid == uid)) [
    | inl h ↦ inr (0, rw (e, h) refl, rw (e', h) refl)
    | inr h ↦ inl (rw (e, h) refl, rw (e', h) refl)
  ]
]

remove_owner_reference-more :
    (r s : OwnerReference) (refs : List OwnerReference) (uid : String)
    → (remove_owner_reference (r ∷ s ∷ refs) uid).0
      ≡ or_same (r ∷ s ∷ refs) (handed_over (last_owner s refs) uid (r ∷ s ∷ refs))
unfolding remove_owner_reference remove_at overwrite
remove_owner_reference-more r s refs uid =
    elim (handed_over_lem (last_owner s refs) uid (r ∷ s ∷ refs)) [
      | inl (e, e') ↦ rw (e, e') refl
      | inr (i, e, e') ↦
          let shorter : length (r ∷ s ∷ refs) - 1 ≡ suc (length refs) = omega arith in
          rw (e, e', shorter, get_elem?-last s refs) refl
    ]

remove_owner_reference-one :
    (r : OwnerReference) (uid : String)
    → (r.uid == uid) ≡ false
    → (remove_owner_reference (r ∷ []) uid).0 ≡ r ∷ []
unfolding remove_owner_reference remove_at last_index_of_uid
remove_owner_reference-one r uid h = rw h refl

-- How the deletion of a strategy ends, by what is found at the name of its placement.
module _ {W : Type 0} (env : Env W) (target : Strategy) where
  -- The placement is written with these owner references, and then the finalizer goes.
  abbrev pub writes_back : List OwnerReference → Placement → Action W CtrlResult
  writes_back refs pl =
      env.placements.update (set_owner_references refs pl) >>= λ updated. drop_finalizer env target

  -- By the owner references of the placement.
  abbrev pub release_outcome : List OwnerReference → Placement → Action W CtrlResult
  release_outcome [] pl = crash
  release_outcome (r ∷ []) pl =
      if r.uid == target.meta.uid
      then (env.placements.delete pl >> pure requeue_in_1s)
      else writes_back (r ∷ []) pl
  release_outcome (r ∷ s ∷ refs) pl =
      writes_back
        (or_same (r ∷ s ∷ refs) (handed_over (last_owner s refs) target.meta.uid (r ∷ s ∷ refs))) pl

  abbrev pub deletion_outcome : Result Placement → Action W CtrlResult
  deletion_outcome (ok pl) = release_outcome pl.meta.owner_references pl
  deletion_outcome (err e) = if is_not_found e then drop_finalizer env target else fail e
  deletion_outcome panic = crash

  -- The round after the strategy's placement has been looked up.
  abbrev rest_of_deletion : Result (Option Placement) → Action W CtrlResult
  rest_of_deletion found =
      unless_requeue
        (lift found >>= elim [ some pl ↦ release_placement env target pl | none ↦ pure done ])
        (drop_finalizer env target)

  release_rest-not_last :
      (pl : Placement) (w : W)
      → is_last_owner_reference pl.meta.owner_references target.meta.uid ≡ ok false
      → unless_requeue (release_placement env target pl) (drop_finalizer env target) w
        ≡ writes_back (remove_owner_reference pl.meta.owner_references target.meta.uid).0 pl w
  unfolding release_placement
  release_rest-not_last pl w e = rw e (continue_assoc _ _ (env.placements.update _ w))

  release_rest-last :
      (pl : Placement) (w : W)
      → is_last_owner_reference pl.meta.owner_references target.meta.uid ≡ ok true
      → unless_requeue (release_placement env target pl) (drop_finalizer env target) w
        ≡ (env.placements.delete pl >> pure requeue_in_1s) w
  unfolding release_placement
  release_rest-last pl w e = rw e (continue_assoc _ _ (env.placements.delete pl w))

  release_rest :
      (pl : Placement) (refs : List OwnerReference) (w : W)
      → pl.meta.owner_references ≡ refs
      → unless_requeue (release_placement env target pl) (drop_finalizer env target) w
        ≡ release_outcome refs pl w
  unfolding release_placement is_last_owner_reference
  release_rest pl [] w e = rw e refl
  release_rest pl (r ∷ []) w e = elim (Bool-cases (r.uid == target.meta.uid)) [
    | inl h ↦ release_rest-last pl w (rw (e, h) refl) ∙ rw h refl
    | inr h ↦
        release_rest-not_last pl w (rw (e, h) refl)
        ∙ rw (e, h, remove_owner_reference-one r target.meta.uid h) refl
  ]
  release_rest pl (r ∷ s ∷ refs) w e =
      release_rest-not_last pl w (rw e refl)
      ∙ rw (e, remove_owner_reference-more r s refs target.meta.uid) refl

  rest_of_deletion_lem :
      (found : Result Placement) (w : W)
      → rest_of_deletion (or_not_found found) w ≡ deletion_outcome found w
  rest_of_deletion_lem (ok pl) w = release_rest pl pl.meta.owner_references w refl
  rest_of_deletion_lem (err e) w = elim (Bool-cases (is_not_found e)) [
    | inl h ↦ rw h
    | inr h ↦ rw h
  ]
  rest_of_deletion_lem panic w = refl

  -- A strategy that is being deleted and whose AuthRealm is found goes one of these ways. It loses
  -- its finalizer at once if its placement is not there. It keeps the finalizer, and nothing is
  -- written, if the placement cannot be read. If it is the placement's only owner, the placement is
  -- deleted and the reconciler comes back, without a write of the strategy. If the only owner is
  -- another, the placement is written back as it was before the finalizer goes. If there are several
  -- owners, it is written back with the last reference in the place of the strategy's last one, if
  -- there is one, so that their number stays, and then the finalizer goes. The finalizer stays if
  -- that write fails. A placement without owner references makes the reconciler panic.
  pub deletion_by_placement :
      (auth_realm : AuthRealm) (w : W)
      → is_deleting target.meta ≡ true
      → get_authrealm_from_strategy env target w ≡ (ok auth_realm, w)
      → reconcile_instance env target w
        ≡ deletion_outcome
            (env.placements.get
              (record {
                name = placement_strategy_name env.strategy_type_text target auth_realm;
                namespace = target.meta.namespace;
              })
              w)
            w
  unfolding reconcile_instance process_strategy_deletion
  deletion_by_placement auth_realm w deleting owner =
      rw (deleting, owner) (rest_of_deletion_lem _ w)
