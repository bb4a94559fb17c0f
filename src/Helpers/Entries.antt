-- ===== src/Helpers/Entries.antt =====
-- The entry of a cluster in the status of an AuthRealm, by the names of its strategy and its
-- cluster, before and after an assignment to the entry that the searches have found.
use idp_mgmt_operator.Base.{
  ℕ, suc, String, ◌&&◌, Bool-cases, Option-cases, Option, none, some, List, [], ◌∷◌, ◌≡◌, refl,
  ◌==◌, ◌⊎◌, inl, inr, get_elem?, arith, if◌then◌else◌, eq_iff,
}
use idp_mgmt_operator.Api.Identity.{ClusterStatus, StrategySummary}
use idp_mgmt_operator.Helpers.Status.{
  index_of_name, strategy_names, cluster_names, get_strategy_status_index, get_cluster_status_index,
  modify_at,
}
use idp_mgmt_operator.Helpers.Position.{
  no_strategy, no_cluster, at, position_in, position_of, cluster_position, modify_clusters,
}
use idp_mgmt_operator.Strategy.Summary.{find_strategy}

-- The first entry of a cluster's name.
abbrev pub find_cluster : String → List ClusterStatus → Option ClusterStatus
find_cluster name [] = none
find_cluster name (c ∷ cs) = if c.name == name then some c else find_cluster name cs

abbrev pub cluster_in : String → Option StrategySummary → Option ClusterStatus
cluster_in name none = none
cluster_in name (some s) = find_cluster name s.clusters

-- The entry of a cluster under a strategy.
abbrev pub entry : String → String → List StrategySummary → Option ClusterStatus
entry strategy_name cluster_name ss = cluster_in cluster_name (find_strategy strategy_name ss)

pub found_cluster :
    (name : String) (cs : List ClusterStatus) (j : ℕ)
    → index_of_name name (cluster_names cs) ≡ some j
    → (c : ClusterStatus) × (find_cluster name cs ≡ some c)
      × ((f : ClusterStatus → ClusterStatus) (n : String)
          → ((f c).name ≡ c.name)
          → find_cluster n (modify_at j f cs)
            ≡ (if name == n then some (f c) else find_cluster n cs))
unfolding index_of_name modify_at
found_cluster name [] j h = absurd (ground arith)
found_cluster name (c ∷ cs) j h = elim (Bool-cases (c.name == name)) [
  | inl e ↦
      let first : some 0 ≡ some j = rw e at h in
      let same : 0 ≡ j = ground arith in
      (
        c,
        rw e refl,
        λ f n keeps.
            rw (← same) (ground (arith, keeps, eq_iff c.name name, eq_iff c.name n, eq_iff name n)),
      )
  | inr e ↦ elim (Option-cases (index_of_name name (cluster_names cs))) [
    | inl missing ↦ let h' = rw (e, missing) at h in absurd (ground arith)
    | inr (i, there) ↦
        let next : some (suc i) ≡ some j = rw (e, there) at h in
        let same : suc i ≡ j = ground arith in
        let (c', found, rest) = found_cluster name cs i there in
        (
          c',
          rw e found,
          λ f n keeps.
              rw (← same) (
                ground (arith, rest f n keeps, eq_iff c.name name, eq_iff c.name n, eq_iff name n)),
        )
  ]
]

pub found_strategy :
    (name : String) (ss : List StrategySummary) (i : ℕ)
    → index_of_name name (strategy_names ss) ≡ some i
    → (s : StrategySummary) × (find_strategy name ss ≡ some s)
      × (get_elem? ss i ≡ some s)
      × ((f : StrategySummary → StrategySummary) (n : String)
          → ((f s).name ≡ s.name)
          → find_strategy n (modify_at i f ss)
            ≡ (if name == n then some (f s) else find_strategy n ss))
unfolding index_of_name modify_at find_strategy
found_strategy name [] i h = absurd (ground arith)
found_strategy name (s ∷ ss) i h = elim (Bool-cases (s.name == name)) [
  | inl e ↦
      let first : some 0 ≡ some i = rw e at h in
      let same : 0 ≡ i = ground arith in
      (
        s,
        rw e refl,
        rw (← same) refl,
        λ f n keeps.
            rw (← same) (ground (arith, keeps, eq_iff s.name name, eq_iff s.name n, eq_iff name n)),
      )
  | inr e ↦ elim (Option-cases (index_of_name name (strategy_names ss))) [
    | inl missing ↦ let h' = rw (e, missing) at h in absurd (ground arith)
    | inr (j, there) ↦
        let next : some (suc j) ≡ some i = rw (e, there) at h in
        let same : suc j ≡ i = ground arith in
        let (s', found, element, rest) = found_strategy name ss j there in
        (
          s',
          rw e found,
          rw (← same) element,
          λ f n keeps.
              rw (← same) (
                ground (arith, rest f n keeps, eq_iff s.name name, eq_iff s.name n, eq_iff name n)),
        )
  ]
]

-- The searches that have found a position, one after the other.
pub position_parts :
    (ss : List StrategySummary) (strategy_name cluster_name : String) (i j : ℕ)
    → cluster_position ss strategy_name cluster_name ≡ at i j
    → (index_of_name strategy_name (strategy_names ss) ≡ some i)
      × ((s : StrategySummary) × (get_elem? ss i ≡ some s)
          × (index_of_name cluster_name (cluster_names s.clusters) ≡ some j))
unfolding cluster_position position_of position_in get_strategy_status_index
    get_cluster_status_index
position_parts ss strategy_name cluster_name i j h =
    elim (Option-cases (index_of_name strategy_name (strategy_names ss))) [
      | inl missing ↦ let h' = rw missing at h in absurd (ground arith)
      | inr (i', there) ↦ elim (Option-cases (get_elem? ss i')) [
        | inl missing ↦ let h' = rw (there, missing) at h in absurd (ground arith)
        | inr (s, element) ↦
            elim (Option-cases (index_of_name cluster_name (cluster_names s.clusters))) [
              | inl missing ↦ let h' = rw (there, element, missing) at h in absurd (ground arith)
              | inr (j', inside) ↦
                  let h' : at i' j' ≡ at i j = rw (there, element, inside) at h in
                  let same : i' ≡ i = ground arith in
                  let same' : j' ≡ j = ground arith in
                  (rw (← same) there, (s, rw (← same) element, rw (← same') inside))
            ]
      ]
    ]

-- The assignment to the entry at the position that the searches find is the change of that entry
-- alone.
pub entry-modify :
    (ss : List StrategySummary) (strategy_name cluster_name n m : String) (i j : ℕ)
    (f : ClusterStatus → ClusterStatus)
    → ((c : ClusterStatus) → (f c).name ≡ c.name)
    → cluster_position ss strategy_name cluster_name ≡ at i j
    → (c : ClusterStatus) × (entry strategy_name cluster_name ss ≡ some c)
      × (entry n m (modify_clusters i (modify_at j f) ss)
          ≡ (if strategy_name == n && cluster_name == m then some (f c) else entry n m ss))
entry-modify ss strategy_name cluster_name n m i j f keeps h =
    let (outer, (s, element, inner)) = position_parts ss strategy_name cluster_name i j h in
    let (s', found, element', changed) = found_strategy strategy_name ss i outer in
    let same : s ≡ s' = ground arith in
    let (c, found_c, changed_c) = found_cluster cluster_name s.clusters j inner in
    let after = changed (λ s. record s { clusters = modify_at j f s.clusters }) n refl in
    let here : entry strategy_name cluster_name ss ≡ some c = rw (found, ← same) found_c in
    (
      c,
      here,
      elim (Bool-cases (strategy_name == n)) [
        | inr e ↦ rw (after, e) refl
        | inl e ↦
            let equal : strategy_name ≡ n = (eq_iff strategy_name n).0 e in
            let found_n : find_strategy n ss ≡ some s = rw (← equal, same) found in
            rw (after, e, ← same, found_n) (changed_c f m (keeps c))
      ],
    )

missing_cluster :
    (name : String) (cs : List ClusterStatus)
    → index_of_name name (cluster_names cs) ≡ none
    → find_cluster name cs ≡ none
unfolding index_of_name
missing_cluster name [] h = refl
missing_cluster name (c ∷ cs) h = elim (Bool-cases (c.name == name)) [
  | inl e ↦ let h' = rw e at h in absurd (ground arith)
  | inr e ↦ elim (Option-cases (index_of_name name (cluster_names cs))) [
    | inl missing ↦ rw e (missing_cluster name cs missing)
    | inr (i, there) ↦ let h' = rw (e, there) at h in absurd (ground arith)
  ]
]

missing_strategy :
    (name : String) (ss : List StrategySummary)
    → index_of_name name (strategy_names ss) ≡ none
    → find_strategy name ss ≡ none
unfolding index_of_name find_strategy
missing_strategy name [] h = refl
missing_strategy name (s ∷ ss) h = elim (Bool-cases (s.name == name)) [
  | inl e ↦ let h' = rw e at h in absurd (ground arith)
  | inr e ↦ elim (Option-cases (index_of_name name (strategy_names ss))) [
    | inl missing ↦ rw e (missing_strategy name ss missing)
    | inr (i, there) ↦ let h' = rw (e, there) at h in absurd (ground arith)
  ]
]

-- What the searches come to: there is no entry, or there is a position.
pub position_cases :
    (ss : List StrategySummary) (strategy_name cluster_name : String)
    → ((cluster_position ss strategy_name cluster_name ≡ no_strategy)
        × (find_strategy strategy_name ss ≡ none))
      ⊎ ((i : ℕ) × (s : StrategySummary) × (cluster_position ss strategy_name cluster_name
            ≡ no_cluster i)
          × (find_strategy strategy_name ss ≡ some s)
          × (find_cluster cluster_name s.clusters ≡ none))
      ⊎ ((i : ℕ) × (j : ℕ) × (cluster_position ss strategy_name cluster_name ≡ at i j))
unfolding cluster_position position_of position_in get_strategy_status_index
    get_cluster_status_index
position_cases ss strategy_name cluster_name =
    elim (Option-cases (index_of_name strategy_name (strategy_names ss))) [
      | inl missing ↦ inl (rw missing refl, missing_strategy strategy_name ss missing)
      | inr (i, there) ↦
          let (s, found, element, rest) = found_strategy strategy_name ss i there in
          elim (Option-cases (index_of_name cluster_name (cluster_names s.clusters))) [
            | inl missing ↦ inr (
                inl (
                  i,
                  s,
                  rw (there, element, missing) refl,
                  found,
                  missing_cluster cluster_name s.clusters missing,
                ))
            | inr (j, inside) ↦ inr (inr (i, j, rw (there, element, inside) refl))
          ]
    ]

-- Where there is an entry already, or else nothing is written.
pub entry-missing :
    (ss : List StrategySummary) (strategy_name cluster_name : String)
    → ((cluster_position ss strategy_name cluster_name ≡ no_strategy)
        × (entry strategy_name cluster_name ss ≡ none))
      ⊎ ((i : ℕ) × (cluster_position ss strategy_name cluster_name ≡ no_cluster i)
          × (entry strategy_name cluster_name ss ≡ none))
      ⊎ ((i : ℕ) × (j : ℕ) × (cluster_position ss strategy_name cluster_name ≡ at i j))
entry-missing ss strategy_name cluster_name = elim (position_cases ss strategy_name cluster_name) [
  | inl (p, none_) ↦ inl (p, rw none_ refl)
  | inr (inl (i, s, p, found, none_)) ↦ inr (inl (i, p, rw found none_))
  | inr (inr (i, j, p)) ↦ inr (inr (i, j, p))
]
