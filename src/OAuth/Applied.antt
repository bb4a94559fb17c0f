-- ===== src/OAuth/Applied.antt =====
-- When the manager of a cluster with its own control plane lets go of the original OAuth.
use idp_mgmt_operator.Base.{true, Bool-cases, ◌≡◌, ◌≢◌, refl, ◌⊎◌, inl, inr}
use idp_mgmt_operator.Api.Action.{
  Action, Result, ok, err, panic, Error, is_not_found, Attempt, got, attempt, CtrlResult, done,
  pure, ◌>>=◌, ◌>>◌,
}
use idp_mgmt_operator.Api.Identity.{ClusterOAuth}
use idp_mgmt_operator.Api.Work.{Hub, ManifestWork}
use idp_mgmt_operator.Helpers.Names.{manifest_work_oauth_name, manifest_work_original_oauth_name}
use idp_mgmt_operator.OAuth.Aggregate.{delete_original_oauth}
use idp_mgmt_operator.OAuth.Backplane.{
  original_work_key, is_applied, not_yet_applied, check_manifest_work_original_oauth_applied,
  restore_original_oauth, delete_manifest_work, after_restore, unmanage_last,
}

module _ {W : Type 0} (hub : Hub W) (c : ClusterOAuth) where
  -- The deletion of the manifest work with the original OAuth, which comes last.
  abbrev pub drop_original : Action W CtrlResult
  drop_original =
      delete_manifest_work hub manifest_work_original_oauth_name c.meta.namespace >> pure done

  -- How a run `m` goes on when the restoration has given the result `r` in the world `u`: the
  -- original is deleted if the work was Applied; it is left, and only the work is deleted, if
  -- something was not found; or the run fails in that world.
  abbrev pub Ends : Result CtrlResult × W → Result (Unit {0}) → W → Type 0
  Ends run r u =
      ((work : ManifestWork) × (r ≡ ok tt)
        × (hub.manifest_works.get (original_work_key c.meta.namespace) u ≡ ok work)
        × (is_applied hub work ≡ true)
        × (run ≡ (delete_original_oauth hub c.meta.namespace >> drop_original) u))
      ⊎ ((e : Error) × (r ≡ err e) × (is_not_found e ≡ true) × (run ≡ drop_original u))
      ⊎ ((r' : Result CtrlResult) × (run ≡ (r', u)) × ((x : CtrlResult) → r' ≢ ok x))

  abbrev rest_of_run : Attempt (Unit {0}) → Action W CtrlResult
  rest_of_run a = after_restore hub c a >> drop_original

  by_work :
      (u : W) (work : Result ManifestWork)
      → hub.manifest_works.get (original_work_key c.meta.namespace) u ≡ work
      → Ends (rest_of_run (got tt) u) (ok tt) u
  unfolding after_restore check_manifest_work_original_oauth_applied
  by_work u (ok work) h = elim (Bool-cases (is_applied hub work)) [
    | inl e ↦ inl (work, refl, h, e, rw (h, e) refl)
    | inr e ↦ inr (inr (err (not_yet_applied hub), rw (h, e) refl, λ x q. absurd (cc)))
  ]
  by_work u (err e) h = inr (inr (err e, rw h refl, λ x q. absurd (cc)))
  by_work u panic h = inr (inr (panic, rw h refl, λ x q. absurd (cc)))

  by_restoration :
      (v u : W) (r : Result (Unit {0}))
      → restore_original_oauth hub c v ≡ (r, u)
      → Ends ((attempt (restore_original_oauth hub c) >>= rest_of_run) v) r u
  unfolding after_restore
  by_restoration v u (ok tt) h = rw h (by_work u _ refl)
  by_restoration v u (err e) h = elim (Bool-cases (is_not_found e)) [
    | inl q ↦ inr (inl (e, refl, q, rw (h, q) refl))
    | inr q ↦ inr (inr (err e, rw (h, q) refl, λ x q. absurd (cc)))
  ]
  by_restoration v u panic h = inr (inr (panic, rw h refl, λ x q. absurd (cc)))

  -- For a cluster with its own control plane, once the manifest work with the aggregated OAuth is
  -- deleted and the restoration of the original has been tried, the removal of the last ClusterOAuth
  -- goes on in one of these ways. If the restoration has succeeded and its manifest work is then
  -- got and is Applied, the config map with the original is deleted, and after that the work. If the
  -- restoration has failed because something was not found, only the work is deleted. Else the
  -- removal fails, and nothing is written after the restoration, so that the config map is kept.
  pub original_kept_until_applied :
      (w v u : W) (r : Result (Unit {0}))
      → delete_manifest_work hub manifest_work_oauth_name c.meta.namespace w ≡ (ok tt, v)
      → restore_original_oauth hub c v ≡ (r, u)
      → Ends (unmanage_last hub c w) r u
  unfolding unmanage_last
  original_kept_until_applied w v u r first second = rw first (by_restoration v u r second)
