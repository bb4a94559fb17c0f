-- ===== src/Helpers/Hypershift.antt =====
-- pkg/helpers/hypershift.go: the hypershift deployment of a cluster.
use Prim.Native.String.{◌++◌}
use idp_mgmt_operator.Base.{String, none, List, [], ◌∷◌}
use idp_mgmt_operator.Api.Action.{Action, pure, fail, read, errorf, ◌>>=◌}
use idp_mgmt_operator.Api.Work.{Hub, HypershiftDeployment}
use idp_mgmt_operator.Helpers.Names.{hypershift_deployment_infra_id_label}

module _ {W : Type 0} where
  unfoldable pub only_deployment :
      String → List HypershiftDeployment → Action W HypershiftDeployment
  only_deployment cluster_name [] =
      fail (errorf ("no hypershiftdeployment found with the infraID equal to " ++ cluster_name))
  only_deployment cluster_name (hd ∷ []) = pure hd
  only_deployment cluster_name (hd ∷ hd' ∷ hds) =
      fail
        (errorf ("more than one hypershiftdeployment have the infraID equal to " ++ cluster_name))

  -- `GetHypershiftDeployment`
  unfoldable pub get_hypershift_deployment : Hub W → String → Action W HypershiftDeployment
  get_hypershift_deployment hub cluster_name =
      read (
        hub.hypershift_deployments.list (record {
          namespace = none;
          matching_labels = (hypershift_deployment_infra_id_label, cluster_name) ∷ [];
        }))
      >>= only_deployment cluster_name
