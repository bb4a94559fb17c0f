-- ===== src/Installer/Remove.antt =====
-- `processIDPConfigDeletion`: the objects of the operator, and unless its image is for coverage
-- those of the webhook, one after the other.
use idp_mgmt_operator.Base.{String, Option, none, some, List, [], ◌∷◌, if◌then◌else◌}
use idp_mgmt_operator.Api.Action.{Action, pure, read, lift, or_not_found, for_each, ◌>>=◌, ◌>>◌}
use idp_mgmt_operator.Api.Meta.{ObjectKey}
use idp_mgmt_operator.Api.Objects.{Bare}
use idp_mgmt_operator.Installer.Targets.{
  Kind, deployment, role_binding, cluster_role_binding, service_account, cluster_role, role,
  api_service, service, validating_webhook_configuration, Target, Cluster, first_image, is_coverage,
}

abbrev pub target : Kind → String → String → Target
target kind name namespace = record {
  kind = kind;
  key = record { name = name; namespace = namespace };
}

abbrev pub operator_targets : String → List Target
operator_targets namespace =
    target deployment "idp-mgmt-operator-manager" namespace
    ∷ target role_binding "idp-mgmt-operator-leader-election-rolebinding" namespace
    ∷ target cluster_role_binding "idp-mgmt-operator-manager-rolebinding" namespace
    ∷ target service_account "idp-mgmt-operator-manager" namespace
    ∷ target cluster_role "idp-mgmt-operator-manager-role" ""
    ∷ target role "leader-election-operator-role" namespace
    ∷ []

abbrev pub webhook_targets : String → List Target
webhook_targets namespace =
    target deployment "idp-mgmt-webhook-service" namespace
    ∷ target api_service "v1alpha1.admission.identityconfig.identitatem.io" ""
    ∷ target cluster_role_binding "idp-mgmt-webhook-service" ""
    ∷ target cluster_role "idp-mgmt-webhook-service" ""
    ∷ target service_account "idp-mgmt-webhook-service" namespace
    ∷ target service "idp-mgmt-webhook-service" namespace
    ∷ target validating_webhook_configuration "idp-mgmt-webhook-service" namespace
    ∷ []

module _ {W : Type 0} (cluster : Cluster W) where
  unfoldable pub delete_found : Kind → Option Bare → Action W (Unit {0})
  delete_found kind none = pure tt
  delete_found kind (some o) = (cluster.objects kind).delete o

  -- `Get`, then the switch on its error
  unfoldable pub delete_target : Target → Action W (Unit {0})
  delete_target t =
      read (λ w. or_not_found ((cluster.objects t.kind).get t.key w)) >>= delete_found t.kind

  unfoldable pub remove_webhook : String → String → Action W (Unit {0})
  remove_webhook namespace image =
      if is_coverage image then pure tt else for_each (webhook_targets namespace) delete_target

  -- `processIDPConfigDeletion`, with `podName` and `podNamespace`
  unfoldable pub process_idp_config_deletion : ObjectKey → Action W (Unit {0})
  process_idp_config_deletion pod_key = do
    for_each (operator_targets pod_key.namespace) delete_target
    pod ← read (cluster.get_pod pod_key)
    image ← lift (first_image pod.images)
    remove_webhook pod_key.namespace image
