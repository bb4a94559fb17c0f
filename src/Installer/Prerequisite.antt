-- ===== src/Installer/Prerequisite.antt =====
-- When the installer starts.
use idp_mgmt_operator.Base.{
  ℕ, zero, suc, Bool-cases, true, ◌||◌, ◌≡◌, ◌≢◌, refl, ◌⊎◌, ◌↔◌, inl, inr, arith,
}
use idp_mgmt_operator.Api.Action.{Result, ok, err, panic, Error}
use idp_mgmt_operator.Installer.Targets.{Cluster}
use idp_mgmt_operator.Installer.Reconcile.{
  no_rhacm, has_items, is_rhacm, is_mce, either_of, check_prerequisite,
}

-- A list has been got, and it has items.
abbrev pub HasSome : Result ℕ → Type 0
HasSome r = (n : ℕ) × (r ≡ ok (suc n))

has_items_iff : (r : Result ℕ) → (has_items r ≡ true) ↔ HasSome r
unfolding has_items
has_items_iff (ok zero) = (λ h. absurd (ground arith), λ (n, h). absurd (ground arith))
has_items_iff (ok (suc n)) = (λ h. (n, refl), λ h. refl)
has_items_iff (err e) = (λ h. absurd (ground arith), λ (n, h). absurd (ground arith))
has_items_iff panic = (λ h. absurd (ground arith), λ (n, h). absurd (ground arith))

mce_iff :
    (e : Error) (s t : Result ℕ)
    → (either_of (err e) (is_mce s t) ≡ ok tt) ↔ (HasSome s ⊎ HasSome t)
unfolding either_of is_mce
mce_iff e s t = (
  λ h. elim (Bool-cases (has_items s)) [
    | inl q ↦ inl ((has_items_iff s).0 q)
    | inr q ↦ elim (Bool-cases (has_items t)) [
      | inl q' ↦ inr ((has_items_iff t).0 q')
      | inr q' ↦ let h' = rw (q, q') at h in absurd (ground arith)
    ]
  ],
  λ h. elim h [
    | inl some_s ↦ rw ((has_items_iff s).1 some_s) refl
    | inr some_t ↦ elim (Bool-cases (has_items s)) [
      | inl q ↦ rw q refl
      | inr q ↦ rw (q, (has_items_iff t).1 some_t) refl
    ]
  ],
)

rhacm_or_mce :
    (e : Error) (r s t : Result ℕ)
    → (HasSome r → ⊥)
    → (either_of (err e) (is_mce s t) ≡ ok tt) ↔ (HasSome r ⊎ HasSome s ⊎ HasSome t)
rhacm_or_mce e r s t empty = (
  λ h. inr ((mce_iff e s t).0 h),
  λ h. elim h [ inl some_r ↦ absurd (empty some_r) | inr rest ↦ (mce_iff e s t).1 rest ],
)

mce-not-panic : (s t : Result ℕ) → either_of (ok tt) (is_mce s t) ≡ ok tt
unfolding either_of is_mce
mce-not-panic s t = elim (Bool-cases (has_items s || has_items t)) [
  | inl q ↦ rw q refl
  | inr q ↦ rw q refl
]

either_iff :
    (r s t : Result ℕ)
    → r ≢ panic
    → (either_of (is_rhacm r) (is_mce s t) ≡ ok tt) ↔ (HasSome r ⊎ HasSome s ⊎ HasSome t)
unfolding is_rhacm
either_iff (ok zero) s t p = rhacm_or_mce no_rhacm (ok zero) s t (λ (n, h). ground arith)
either_iff (ok (suc n)) s t p = (λ h. inl (n, refl), λ h. mce-not-panic s t)
either_iff (err e) s t p = rhacm_or_mce e (err e) s t (λ (n, h). ground arith)
either_iff panic s t p = absurd (p refl)

module _ {W : Type 0} (cluster : Cluster W) where
  -- Unless the list of hubs panics, the prerequisites of the installer are met exactly if a list of
  -- MultiClusterHubs, of MultiClusterEngines v1 or of v1alpha1 can be got and is not empty; an error
  -- of one list does not matter if another has items.
  pub prerequisite_iff :
      (w : W)
      → cluster.multicluster_hubs w ≢ panic
      → (check_prerequisite cluster w ≡ ok tt) ↔ (
          HasSome (cluster.multicluster_hubs w)
          ⊎ HasSome (cluster.multicluster_engines "v1" w)
          ⊎ HasSome (cluster.multicluster_engines "v1alpha1" w))
  unfolding check_prerequisite
  prerequisite_iff w p = either_iff _ _ _ p
