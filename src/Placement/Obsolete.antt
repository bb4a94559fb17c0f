-- ===== src/Placement/Obsolete.antt =====
-- Which dex clients are left when `deleteObsoleteConfigs` has gone through.
use idp_mgmt_operator.Base.{String, ◌≡◌}
use idp_mgmt_operator.Api.Action.{Action}
use idp_mgmt_operator.Api.Identity.{ClusterOAuth}
use idp_mgmt_operator.Api.Objects.{Placement, Secret}
use idp_mgmt_operator.Api.Client.{Env}
use idp_mgmt_operator.Placement.Collecting.{decision}

module _ {W : Type 0} (env : Env W) (placement : Placement)
    -- the deletion of secrets and ClusterOAuths leaves the decisions of the placement
    (secrets_apart : (cluster_name : String) (o : Secret) (w : W)
      → decision env placement cluster_name (env.secrets.delete o w).1
        ≡ decision env placement cluster_name w)
    (oauths_apart : (cluster_name : String) (o : ClusterOAuth) (w : W)
      → decision env placement cluster_name (env.cluster_oauths.delete o w).1
        ≡ decision env placement cluster_name w) where
  -- The decisions are the same in both worlds.
  abbrev SameDecisions : W → W → Type 0
  SameDecisions v w =
      (name : String) → decision env placement name v ≡ decision env placement name w
