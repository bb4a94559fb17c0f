-- ===== src/Strategy/Partition.antt =====
-- What the placements of the two strategies select, given how a requirement is evaluated at a
-- cluster.
use mathlib.Core.List.{foldl}
use idp_mgmt_operator.Base.{
  String, Bool, false, not, ◌&&◌, ◌||◌, List, [], ◌∷◌, ◌++◌, ◌≡◌, refl, all, any, arith,
}
use idp_mgmt_operator.Api.Meta.{Labels}
use idp_mgmt_operator.Api.Objects.{Requirement, ClusterSelector, Placement}
use idp_mgmt_operator.Strategy.Selectors.{
  claim_selector, hosted_cluster_requirement, not_hosted_cluster_requirement,
  add_user_defined_selector, add_user_defined_selectors, backplane_placement_strategy,
  hypershift_placement_strategy,
}

pub all-append {ℓ} :
    {A : Type ℓ} (p : A → Bool) (xs ys : List A) → all p (xs ++ ys) ≡ (all p xs && all p ys)
all-append p [] ys = refl
all-append p (x ∷ xs) ys = ground (arith, all-append p xs ys)

-- `match_label`, `match_expression` and `match_claim` say whether a cluster has a label, and whether
-- its labels and its claims meet a requirement.
module _ {C : Type 0} (match_label : String × String → C → Bool)
    (match_expression match_claim : Requirement → C → Bool) where
  -- The terms of a selector are joined by "and".
  abbrev pub selects : ClusterSelector → C → Bool
  selects s c =
      all (λ r. match_claim r c) s.claim_expressions
      && all (λ r. match_expression r c) s.label_selector.match_expressions
      && all (λ l. match_label l c) s.label_selector.match_labels

  -- The predicates of a placement are joined by "or".
  abbrev pub placement_selects : Placement → C → Bool
  placement_selects placement c = any (λ s. selects s c) placement.spec.predicates

  -- What the user's predicates require of a cluster that a strategy's placement is to select: the
  -- expressions of all of them, and the match labels of the last one.
  abbrev user_claims : List ClusterSelector → C → Bool
  user_claims ps c = all (λ p. all (λ r. match_claim r c) p.claim_expressions) ps

  abbrev user_expressions : List ClusterSelector → C → Bool
  user_expressions ps c =
      all (λ p. all (λ r. match_expression r c) p.label_selector.match_expressions) ps

  abbrev last_labels : Labels → List ClusterSelector → Labels
  last_labels labels [] = labels
  last_labels labels (p ∷ ps) = last_labels p.label_selector.match_labels ps

  abbrev pub user_terms : List ClusterSelector → C → Bool
  user_terms ps c =
      user_claims ps c && user_expressions ps c && all (λ l. match_label l c) (last_labels [] ps)

  fold-claims :
      (ps : List ClusterSelector) (s : ClusterSelector) (c : C)
      → all (λ r. match_claim r c) (foldl add_user_defined_selector s ps).claim_expressions
        ≡ (all (λ r. match_claim r c) s.claim_expressions && user_claims ps c)
  unfolding add_user_defined_selector
  fold-claims [] s c = ground arith
  fold-claims (p ∷ ps) s c = ground (
    arith,
    fold-claims ps (add_user_defined_selector s p) c,
    all-append (λ r. match_claim r c) s.claim_expressions p.claim_expressions,
  )

  fold-expressions :
      (ps : List ClusterSelector) (s : ClusterSelector) (c : C)
      → all
          (λ r. match_expression r c)
          (foldl add_user_defined_selector s ps).label_selector.match_expressions
        ≡ (all (λ r. match_expression r c) s.label_selector.match_expressions
            && user_expressions ps c)
  unfolding add_user_defined_selector
  fold-expressions [] s c = ground arith
  fold-expressions (p ∷ ps) s c = ground (
    arith,
    fold-expressions ps (add_user_defined_selector s p) c,
    all-append (λ r. match_expression r c) s.label_selector.match_expressions
        p.label_selector.match_expressions,
  )

  fold-labels :
      (ps : List ClusterSelector) (s : ClusterSelector)
      → (foldl add_user_defined_selector s ps).label_selector.match_labels
        ≡ last_labels s.label_selector.match_labels ps
  unfolding add_user_defined_selector
  fold-labels [] s = refl
  fold-labels (p ∷ ps) s = fold-labels ps (add_user_defined_selector s p)

  selects-add_user_defined_selectors :
      (placement : Placement) (r : Requirement) (c : C)
      → selects (add_user_defined_selectors placement (claim_selector r)) c
        ≡ (match_claim r c && user_terms placement.spec.predicates c)
  unfolding add_user_defined_selectors
  selects-add_user_defined_selectors placement r c =
      let ps = placement.spec.predicates in
      rw
        (
          fold-claims ps (claim_selector r) c,
          fold-expressions ps (claim_selector r) c,
          fold-labels ps (claim_selector r),
        )
        (ground arith)

  -- The placement of either strategy selects a cluster exactly when the cluster meets the strategy's
  -- own requirement on the hosted claim, all claim and label expressions of all predicates of the
  -- user's placement, and the match labels of its last predicate; what the strategy's placement held
  -- before has no part in it.
  pub strategy_selects :
      (placement old_backplane old_hypershift : Placement) (c : C)
      → (placement_selects (backplane_placement_strategy placement old_backplane) c ≡ (
          match_claim not_hosted_cluster_requirement c && user_terms placement.spec.predicates c))
        × (placement_selects (hypershift_placement_strategy placement old_hypershift) c
            ≡ (match_claim hosted_cluster_requirement c && user_terms placement.spec.predicates c))
  unfolding backplane_placement_strategy hypershift_placement_strategy
  strategy_selects placement old_backplane old_hypershift c = (
    ground (arith, selects-add_user_defined_selectors placement not_hosted_cluster_requirement c),
    ground (arith, selects-add_user_defined_selectors placement hosted_cluster_requirement c),
  )

  -- No cluster is selected by the placements of both strategies, whatever the user's placement is,
  -- if the requirement that the hosted claim is not "true" is the negation of the one that it is.
  pub strategies_disjoint :
      (placement old_backplane old_hypershift : Placement) (c : C)
      → match_claim not_hosted_cluster_requirement c
        ≡ not (match_claim hosted_cluster_requirement c)
      → (placement_selects (backplane_placement_strategy placement old_backplane) c
          && placement_selects (hypershift_placement_strategy placement old_hypershift) c)
        ≡ false
  strategies_disjoint placement old_backplane old_hypershift c h =
      let (b, s) = strategy_selects placement old_backplane old_hypershift c in
      rw (b, s, h) (ground arith)

  -- If the user's placement has one predicate, a cluster that it selects is selected by one of the
  -- two strategies, and a cluster that it does not select by neither, if the requirement that the
  -- hosted claim is not "true" is the negation of the one that it is.
  pub strategies_cover :
      (placement old_backplane old_hypershift : Placement) (p : ClusterSelector) (c : C)
      → placement.spec.predicates ≡ p ∷ []
      → match_claim not_hosted_cluster_requirement c
        ≡ not (match_claim hosted_cluster_requirement c)
      → (placement_selects (backplane_placement_strategy placement old_backplane) c
          || placement_selects (hypershift_placement_strategy placement old_hypershift) c)
        ≡ placement_selects placement c
  strategies_cover placement old_backplane old_hypershift p c e h =
      let (b, s) = strategy_selects placement old_backplane old_hypershift c in
      rw (b, s, h, e) (ground arith)
