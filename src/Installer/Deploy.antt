-- ===== src/Installer/Deploy.antt =====
-- `processIDPConfigCreation`: the operator, and unless its image is for coverage the webhook.
use idp_mgmt_operator.Base.{String, Bool, true, false, List, [], ◌∷◌, if◌then◌else◌}
use idp_mgmt_operator.Api.Action.{
  Action, is_already_exists, Attempt, got, failed, attempt, pure, fail, read, lift, ◌>>=◌, ◌>>◌,
}
use idp_mgmt_operator.Api.Meta.{ObjectKey}
use idp_mgmt_operator.Api.Objects.{Bare}
use idp_mgmt_operator.Installer.Targets.{
  Kind, api_service, validating_webhook_configuration, Values, Cluster, first_image, is_coverage,
}

abbrev pub operator_files : List String
operator_files =
    "idp-mgmt-operator/service_account.yaml" ∷ "idp-mgmt-operator/leader_election_role.yaml"
    ∷ "idp-mgmt-operator/leader_election_role_binding.yaml" ∷ "idp-mgmt-operator/clusterrole.yaml"
    ∷ "idp-mgmt-operator/clusterrole_binding.yaml" ∷ []

unfoldable pub manager_files : Bool → List String
manager_files true = "idp-mgmt-operator/manager_coverage.yaml" ∷ []
manager_files false = "idp-mgmt-operator/manager.yaml" ∷ []

abbrev pub webhook_files : List String
webhook_files =
    "webhook/service_account.yaml" ∷ "webhook/webhook_clusterrole.yaml"
    ∷ "webhook/webhook_clusterrolebinding.yaml" ∷ "webhook/webhook_service.yaml" ∷ []

module _ {W : Type 0} (cluster : Cluster W) where
  abbrev pub values_for : String → String → Values
  values_for pod_namespace image = record {
    image = image;
    namespace = pod_namespace;
    image_dex_operator = cluster.getenv "RELATED_IMAGE_DEX_OPERATOR";
    image_dex_server = cluster.getenv "RELATED_IMAGE_DEX_SERVER";
  }

  unfoldable pub unless_exists : Attempt Bare → Action W (Unit {0})
  unless_exists (got o) = pure tt
  unless_exists (failed e) = if is_already_exists e then pure tt else fail e

  -- An object from a template, created if it does not exist.
  unfoldable pub create_from : Values → Kind → String → Action W (Unit {0})
  create_from values kind file = do
    b ← lift (cluster.template_asset values file)
    o ← lift (cluster.unmarshal kind b)
    created ← attempt ((cluster.objects kind).create o)
    unless_exists created

  unfoldable pub deploy_webhook : Values → Action W (Unit {0})
  deploy_webhook values = do
    cluster.apply_directly values webhook_files
    cluster.apply_deployments values ("webhook/webhook.yaml" ∷ [])
    create_from values validating_webhook_configuration "webhook/webhook_validating_config.yaml"
    create_from values api_service "webhook/webhook_apiservice.yaml"

  unfoldable pub deploy : String → String → Action W (Unit {0})
  deploy pod_namespace image = do
    let values = values_for pod_namespace image
    cluster.apply_directly values operator_files
    cluster.apply_deployments values (manager_files (is_coverage image))
    if is_coverage image then pure tt else deploy_webhook values

  -- `processIDPConfigCreation`, with `podName` and `podNamespace`
  unfoldable pub process_idp_config_creation : ObjectKey → Action W (Unit {0})
  process_idp_config_creation pod_key = do
    pod ← read (cluster.get_pod pod_key)
    image ← lift (first_image pod.images)
    deploy pod_key.namespace image
