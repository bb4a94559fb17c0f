-- ===== src/OAuth/Forget.antt =====
-- What the removal of a ClusterOAuth leaves in the status of its AuthRealm.
use text.Mathlib.TextPositions.{eq_refl}
use idp_mgmt_operator.Base.{
  ℕ, suc, String, true, false, ◌&&◌, Bool-cases, Option-cases, Option, none, some, List, [], ◌∷◌,
  ◌≡◌, refl, ◌==◌, ◌⊎◌, inl, inr, arith, if◌then◌else◌, eq_iff,
}
use idp_mgmt_operator.Api.Action.{ok, pure, ◌>>◌}
use idp_mgmt_operator.Api.Identity.{AuthRealm, ClusterOAuth, ClusterStatus, StrategySummary}
use idp_mgmt_operator.Api.Client.{Env}
use idp_mgmt_operator.Helpers.Status.{index_of_name, cluster_names}
use idp_mgmt_operator.Helpers.Position.{at, cluster_position, modify_clusters}
use idp_mgmt_operator.Helpers.Entries.{
  find_cluster, entry, found_strategy, position_parts, entry-missing,
}
use idp_mgmt_operator.Strategy.Summary.{find_strategy}
use idp_mgmt_operator.OAuth.Report.{
  remove_at, auth_realm_key, drop_cluster_at, delete_auth_realm_conditions,
}

-- How many entries have the name.
abbrev pub times : String → List ClusterStatus → ℕ
times name [] = 0
times name (c ∷ cs) = if c.name == name then suc (times name cs) else times name cs

removed_once :
    (name : String) (cs : List ClusterStatus) (j : ℕ)
    → index_of_name name (cluster_names cs) ≡ some j
    → suc (times name (remove_at j cs)) ≡ times name cs
unfolding index_of_name remove_at
removed_once name [] j h = absurd (ground arith)
removed_once name (c ∷ cs) j h = elim (Bool-cases (c.name == name)) [
  | inl e ↦
      let first : some 0 ≡ some j = rw e at h in
      let same : 0 ≡ j = ground arith in rw (← same, e) refl
  | inr e ↦ elim (Option-cases (index_of_name name (cluster_names cs))) [
    | inl missing ↦ let h' = rw (e, missing) at h in absurd (ground arith)
    | inr (i, there) ↦
        let next : some (suc i) ≡ some j = rw (e, there) at h in
        let same : suc i ≡ j = ground arith in rw (← same, e) (removed_once name cs i there)
  ]
]

others_stay :
    (name n : String) (cs : List ClusterStatus) (j : ℕ)
    → index_of_name name (cluster_names cs) ≡ some j
    → (name == n) ≡ false
    → find_cluster n (remove_at j cs) ≡ find_cluster n cs
unfolding index_of_name remove_at
others_stay name n [] j h other = absurd (ground arith)
others_stay name n (c ∷ cs) j h other = elim (Bool-cases (c.name == name)) [
  | inl e ↦
      let first : some 0 ≡ some j = rw e at h in
      let same : 0 ≡ j = ground arith in
      rw (← same) (ground (arith, eq_iff c.name name, eq_iff c.name n, eq_iff name n))
  | inr e ↦ elim (Option-cases (index_of_name name (cluster_names cs))) [
    | inl missing ↦ let h' = rw (e, missing) at h in absurd (ground arith)
    | inr (i, there) ↦
        let next : some (suc i) ≡ some j = rw (e, there) at h in
        let same : suc i ≡ j = ground arith in
        rw (← same) (ground (arith, others_stay name n cs i there other))
  ]
]

-- The clusters under a strategy.
abbrev pub clusters_of : Option StrategySummary → List ClusterStatus
clusters_of none = []
clusters_of (some s) = s.clusters

abbrev pub clusters_under : String → List StrategySummary → List ClusterStatus
clusters_under name ss = clusters_of (find_strategy name ss)

-- The list after the removal has one entry of the cluster less, and every other entry.
entry-remove :
    (ss : List StrategySummary) (strategy_name cluster_name n m : String) (i j : ℕ)
    → cluster_position ss strategy_name cluster_name ≡ at i j
    → (suc (times cluster_name (clusters_under strategy_name (modify_clusters i (remove_at j) ss)))
        ≡ times cluster_name (clusters_under strategy_name ss))
      × (((strategy_name == n && cluster_name == m) ≡ true)
          ⊎ (entry n m (modify_clusters i (remove_at j) ss) ≡ entry n m ss))
entry-remove ss strategy_name cluster_name n m i j h =
    let (outer, (s, element, inner)) = position_parts ss strategy_name cluster_name i j h in
    let (s', found, element', changed) = found_strategy strategy_name ss i outer in
    let same : s ≡ s' = ground arith in
    let dropped : StrategySummary → StrategySummary =
      λ s. record s { clusters = remove_at j s.clusters } in
    let self = changed dropped strategy_name refl in
    let after = changed dropped n refl in
    let own : find_strategy strategy_name ss ≡ some s = rw same found in
    let eq_self : (strategy_name == strategy_name) ≡ true = eq_refl strategy_name in
    (
      rw (self, eq_self, ← same, own) (removed_once cluster_name s.clusters j inner),
      elim (Bool-cases (strategy_name == n)) [
        | inr e ↦ inr (rw (after, e) refl)
        | inl e ↦ elim (Bool-cases (cluster_name == m)) [
          | inl e' ↦ inl (rw (e, e') refl)
          | inr e' ↦
              let equal : strategy_name ≡ n = (eq_iff strategy_name n).0 e in
              let found_n : find_strategy n ss ≡ some s = rw (← equal, same) found in
              inr
                (rw (after, e, ← same, found_n) (others_stay cluster_name m s.clusters j inner e'))
        ]
      ],
    )

module _ {W : Type 0} (env : Env W) where
  -- If the AuthRealm of a ClusterOAuth can be got, `deleteAuthRealmConditions` succeeds without a
  -- write where its status has no entry for the strategy and the cluster of the ClusterOAuth. Else it
  -- patches the status to one in which the strategy has one entry with that cluster's name less, and
  -- in which the entry for every other strategy or cluster is as before.
  pub cluster_forgotten :
      (c : ClusterOAuth) (auth_realm : AuthRealm) (n m : String) (w : W)
      → env.auth_realms.get (auth_realm_key c) w ≡ ok auth_realm
      → ((delete_auth_realm_conditions env c w ≡ (ok tt, w))
          × (entry c.strategy_reference.name c.meta.namespace auth_realm.strategies ≡ none))
        ⊎ ((ss : List StrategySummary) × (delete_auth_realm_conditions env c w
              ≡ (env.auth_realms.patch_status auth_realm (record auth_realm { strategies = ss })
                    >> pure tt)
                  w)
            × (suc (times c.meta.namespace (clusters_under c.strategy_reference.name ss))
                ≡ times c.meta.namespace
                    (clusters_under c.strategy_reference.name auth_realm.strategies))
            × (((c.strategy_reference.name == n && c.meta.namespace == m) ≡ true)
                ⊎ (entry n m ss ≡ entry n m auth_realm.strategies)))
  unfolding delete_auth_realm_conditions drop_cluster_at
  cluster_forgotten c auth_realm n m w got_realm =
      let strategy = c.strategy_reference.name in
      let cluster = c.meta.namespace in
      elim (entry-missing auth_realm.strategies strategy cluster) [
        | inl (p, missing) ↦ inl (rw (got_realm, p) refl, missing)
        | inr (inl (i, p, missing)) ↦ inl (rw (got_realm, p) refl, missing)
        | inr (inr (i, j, p)) ↦
            let (less, kept) = entry-remove auth_realm.strategies strategy cluster n m i j p in
            inr (
              modify_clusters i (remove_at j) auth_realm.strategies,
              rw (got_realm, p) refl,
              less,
              kept,
            )
      ]
