-- ===== src/Installer/Targets.antt =====
-- The objects that the installer handles, and the API server and third-party code as it sees them.

use text.Mathlib.Text.{find?}
use idp_mgmt_operator.Base.{ℕ, String, Bool, not, is_none, List, [], ◌∷◌}
use idp_mgmt_operator.Api.Action.{Action, Result, ok, panic}
use idp_mgmt_operator.Api.Meta.{ObjectMeta, ObjectKey}
use idp_mgmt_operator.Api.Objects.{Bare}
use idp_mgmt_operator.Api.Client.{Resource}

pub data Kind : Type 0 where
  deployment role_binding cluster_role_binding service_account cluster_role role : Kind
  api_service service validating_webhook_configuration : Kind

-- An object to be deleted.
pub record Target : Type 0 where
  pub kind : Kind
  pub key : ObjectKey

-- The images of a pod's containers.
pub record Pod : Type 0 where
  pub meta : ObjectMeta
  pub images : List String

-- The values for the templates.
pub record Values : Type 0 where
  pub image : String
  pub namespace : String
  pub image_dex_operator : String
  pub image_dex_server : String

pub record Cluster (W : Type 0) : Type 0 where
  pub idp_configs : Resource W Bare
  pub objects : Kind → Resource W Bare
  pub get_pod : ObjectKey → W → Result Pod
  -- `applier.ApplyDirectly` and `ApplyDeployments`, of template files with their values
  pub apply_directly : Values → List String → Action W (Unit {0})
  pub apply_deployments : Values → List String → Action W (Unit {0})
  -- `ApplyDirectly` of the custom resource definitions, which take no values
  pub apply_crds : List String → Action W (Unit {0})
  -- `MustTempalteAsset`, then `yaml.Unmarshal`
  pub template_asset : Values → String → Result String
  pub unmarshal : Kind → String → Result Bare
  -- `os.Getenv`
  pub getenv : String → String
  -- The calls of `AddToScheme` at the start
  pub add_to_scheme : Result (Unit {0})
  -- The number of MultiClusterHubs, and of MultiClusterEngines of a version
  pub multicluster_hubs : W → Result ℕ
  pub multicluster_engines : String → W → Result ℕ
  -- `controllerutil.AddFinalizer`, `RemoveFinalizer`
  pub add_finalizer : List String → String → List String
  pub remove_finalizer : List String → String → List String

-- `pod.Spec.Containers[0].Image`
unfoldable pub first_image : List String → Result String
first_image [] = panic
first_image (image ∷ images) = ok image

-- `strings.Contains(image, "coverage")`
unfoldable pub is_coverage : String → Bool
is_coverage image = not (is_none (find? image "coverage"))
