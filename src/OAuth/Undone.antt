-- ===== src/OAuth/Undone.antt =====
-- The original OAuth of a hosted cluster, from `Save` through `Push` to `Unmanage`.
use idp_mgmt_operator.Base.{String, Option, none, ◌⊎◌, List, [], ◌∷◌, ◌≡◌}
use idp_mgmt_operator.Api.Action.{ok, done, pure, ◌>>◌}
use idp_mgmt_operator.Api.Identity.{ClusterOAuth}
use idp_mgmt_operator.Api.Work.{Hub, HypershiftDeployment}
use idp_mgmt_operator.OAuth.Aggregate.{delete_original_oauth}
use idp_mgmt_operator.OAuth.Items.{items_of, item_at, search_configuration, with_oauth}
use idp_mgmt_operator.OAuth.Hypershift.{unmanage_last}
use idp_mgmt_operator.OAuth.Restore.{as_json, original_in_place}

module _ {W : Type 0} (hub : Hub W) where
  -- The deployment after one `Push` after another, each with its own OAuth.
  abbrev pub after_pushes : List String → HypershiftDeployment → HypershiftDeployment
  after_pushes [] hd = hd
  after_pushes (d ∷ ds) hd = after_pushes ds (with_oauth hub d hd)

  -- The restoration writes these items, or there is nothing to restore.
  abbrev pub Restores : ClusterOAuth → HypershiftDeployment → List String → W → Type 0
  Restores c hd ds w =
      ((ds ≡ [])
        × (search_configuration hub hd "cluster" ≡ none)
        × (unmanage_last hub c w ≡ (ok done, w)))
      ⊎ ((saved : Option String) × (hd' : HypershiftDeployment) × (as_json hub
              (item_at (items_of hd) (search_configuration hub hd "cluster"))
            ≡ ok saved)
          × (items_of hd' ≡ original_in_place hub saved (items_of hd))
          × (unmanage_last hub c w
              ≡ (hub.hypershift_deployments.update hd'
                    >> (delete_original_oauth hub c.meta.namespace >> pure done))
                  w))
