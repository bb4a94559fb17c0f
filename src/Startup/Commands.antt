-- ===== src/Startup/Commands.antt =====
-- `run` of cmd/manager/main.go and cmd/installer/main.go. An error is logged and ends the process by
-- `os.Exit(1)`: it is the error of `run`.
use idp_mgmt_operator.Base.{ℕ, String, Bool, true, false, List, if◌then◌else◌}
use idp_mgmt_operator.Api.Action.{
  Action, Attempt, got, failed, is_not_found, attempt, pure, fail, ◌>>=◌, ◌>>◌,
}
use idp_mgmt_operator.Api.Meta.{ObjectKey}
use idp_mgmt_operator.AuthRealm.Reconcile.{Installer}
use idp_mgmt_operator.Installer.Targets.{Cluster}
use idp_mgmt_operator.Installer.Reconcile.{setup}
use idp_mgmt_operator.Startup.Manager.{Options, Manager}
use idp_mgmt_operator.Startup.Setup.{
  setup_auth_realm, setup_strategy, setup_placement, setup_cluster_oauth, setup_manifest_work,
  setup_hypershift_deployment,
}

-- `managerOptions`, `installerOptions`: the values of the flags.
pub record Flags : Type 0 where
  pub metrics_addr : String
  pub probe_addr : String
  pub enable_leader_election : Bool

-- The values of the flags that are not given.
abbrev pub default_flags : Flags
default_flags = record {
  metrics_addr = ":8080";
  probe_addr = ":8081";
  enable_leader_election = false;
}

abbrev pub options_of : Flags → String → Options
options_of o leader_election_id = record {
  metrics_bind_address = o.metrics_addr;
  port = 9443;
  health_probe_bind_address = o.probe_addr;
  leader_election = o.enable_leader_election;
  leader_election_id = leader_election_id;
}

abbrev pub deployments_crd : String
deployments_crd = "hypershiftdeployments.cluster.open-cluster-management.io"

-- The answer to the request for the definition of hypershift deployments.
unfoldable pub is_installed : {W : Type 0} → Attempt (Unit {0}) → Action W Bool
is_installed (got crd) = pure true
is_installed (failed e) = if is_not_found e then pure false else fail e

module _ {W : Type 0} (mgr : Manager W) where
  -- The checks and the start at the end of both commands.
  unfoldable pub check_and_start : Action W (Unit {0})
  check_and_start = mgr.add_healthz_check "healthz" >> (mgr.add_readyz_check "readyz" >> mgr.start)

  -- `run` of the installer; `complete` registers the reconciler of IDPConfigs
  unfoldable pub run_installer :
      (cluster : Cluster W) → (ObjectKey → Action W (Unit {0})) → Flags → Action W (Unit {0})
  run_installer cluster complete o =
      mgr.new_manager (options_of o "installer.identitatem.io")
      >> ((setup cluster >>= complete) >> check_and_start)

module _ {W : Type 0} (mgr : Manager W) (installer : Installer W) where
  -- The controllers, in the order in which they are added, and the start.
  unfoldable pub add_controllers : Bool → Action W (Unit {0})
  add_controllers installed =
      setup_auth_realm mgr installer
      >> (setup_strategy mgr installer
          >> (setup_placement mgr installer
              >> (setup_cluster_oauth mgr installer installed
                  >> (setup_manifest_work mgr
                      >> ((if installed then setup_hypershift_deployment mgr else pure tt)
                          >> check_and_start mgr)))))

  -- `run` of the manager
  unfoldable pub run_manager : Flags → Action W (Unit {0})
  run_manager o =
      mgr.new_manager (options_of o "628f2987.identitatem.io")
      >> ((attempt (mgr.get_crd deployments_crd) >>= is_installed) >>= add_controllers)

-- The command: `run`, and `os.Exit(1)` if that returns.
unfoldable pub exit_status : {W : Type 0} → Action W (Unit {0}) → Action W ℕ
exit_status run = attempt run >>= λ end. pure 1

-- `AdmissionServerOptions` of the generic admission server.
pub record AdmissionServer (W : Type 0) : Type 0 where
  pub complete : Action W (Unit {0})
  pub validate : List String → Action W (Unit {0})
  pub run_admission_server : Action W (Unit {0})

-- `RunE` of the webhook's command
unfoldable pub run_webhook : {W : Type 0} → AdmissionServer W → List String → Action W (Unit {0})
run_webhook o args = o.complete >> (o.validate args >> o.run_admission_server)
