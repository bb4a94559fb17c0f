-- ===== src/Startup/Manager.antt =====
-- What the commands use of controller-runtime: the manager, the scheme and the registration of the
-- controllers (the applier is in `Installer` of AuthRealm/Reconcile); with the kinds of objects that the controllers watch.
use idp_mgmt_operator.Base.{ℕ, String, Bool, List}
use idp_mgmt_operator.Api.Action.{Action}

-- The packages whose `AddToScheme` is called: `identitatemv1alpha1`, the dex operator's package
-- (`identitatemdexv1alpha1`, `identitatemdexserverv1lapha1`, `dexoperatorv1alpha1`), `corev1`,
-- `appsv1`, `manifestworkv1` (also `workv1`), `clusterv1`, `clusterv1alpha1`, `openshiftconfigv1`
-- (also `ocinfrav1`), `viewv1beta1`, `hypershiftv1alpha1` and `hypershiftdeploymentv1alpha1`.
pub data Package : Type 0 where
  identitatem dex_operator core apps work cluster_v1 cluster_v1alpha1 openshift_config view
        hypershift hypershift_deployment :
      Package

-- The kinds of the objects that are watched.
pub data Kind : Type 0 where
  auth_realm strategy cluster_oauth placement manifest_work secret dex_server dex_client
        hosted_deployment :
      Kind

-- The package of the Go type: `identitatemv1alpha1.AuthRealm` and so on.
unfoldable pub package_of : Kind → Package
package_of auth_realm = identitatem
package_of strategy = identitatem
package_of cluster_oauth = identitatem
package_of placement = cluster_v1alpha1
package_of manifest_work = work
package_of secret = core
package_of dex_server = dex_operator
package_of dex_client = dex_operator
package_of hosted_deployment = hypershift_deployment

-- `For`, `Owns` and `Watches` of the builder; what they filter and map is in Watches.
pub data Source : Type 0 where
  for_kind : Kind → Source
  owns : Kind → Source
  watches : Kind → Source

-- The controllers, by the names that are logged.
pub data Controller : Type 0 where
  realm_controller strategy_controller placement_controller oauth_controller work_controller
        deployment_controller :
      Controller

pub record Registration : Type 0 where
  pub controller : Controller
  pub sources : List Source

-- `ctrl.Options`
pub record Options : Type 0 where
  pub metrics_bind_address : String
  pub port : ℕ
  pub health_probe_bind_address : String
  pub leader_election : Bool
  pub leader_election_id : String

pub record Manager (W : Type 0) : Type 0 where
  -- `ctrl.NewManager`
  pub new_manager : Options → Action W (Unit {0})
  -- `CustomResourceDefinitions().Get`
  pub get_crd : String → Action W (Unit {0})
  pub add_to_scheme : Package → Action W (Unit {0})
  -- `Complete` of a builder
  pub complete : Registration → Action W (Unit {0})
  pub add_healthz_check : String → Action W (Unit {0})
  pub add_readyz_check : String → Action W (Unit {0})
  -- `Start`, which returns when the manager is stopped
  pub start : Action W (Unit {0})
