-- ===== src/Tests/Startup.antt =====
-- The start of the manager on a cluster without hypershift deployments, and of the installer.
use idp_mgmt_operator.Base.{true, false, List, [], ◌∷◌, ◌==◌, ◌≡◌, refl, ◌↔◌}
use idp_mgmt_operator.Api.Action.{Result, ok, err, errorf, pure}
use idp_mgmt_operator.Installer.Reconcile.{
  setup, check_prerequisite, either_of, is_rhacm, is_mce, has_items, pod_key_of,
}
use idp_mgmt_operator.Startup.Manager.{Manager}
use idp_mgmt_operator.Startup.Commands.{
  is_installed, add_controllers, default_flags, options_of, deployments_crd, run_manager,
  run_installer, check_and_start,
}
use idp_mgmt_operator.Startup.Calls.{
  note, Call, make_manager, get_crd, add_readyz, recorder, applier,
}
use idp_mgmt_operator.AuthRealm.Reconcile.{install_dex_operator_crds}
use idp_mgmt_operator.Startup.Setup.{
  setup_auth_realm, setup_strategy, setup_placement, setup_cluster_oauth, setup_manifest_work,
}
use idp_mgmt_operator.Startup.Plan.{plan, are_in_order}
use idp_mgmt_operator.Startup.Order.{startup_is_in_order}
use idp_mgmt_operator.Startup.Started.{Started, manager_runs_iff}
use idp_mgmt_operator.Startup.Prerequisites.{HasProduct, installer_needs_product}
use idp_mgmt_operator.Tests.Memory.{missing}
use idp_mgmt_operator.Tests.Installer.{Kinds, cluster, everything}

-- The definition of hypershift deployments is not found, and the ready check is refused.
abbrev refuses_readyz : Call → Result (Unit {0})
refuses_readyz (get_crd name) = err missing
refuses_readyz (add_readyz name) = err (errorf "refused")
refuses_readyz _ = ok tt

startup_is_in_order_example :
    are_in_order [] []
      ((run_manager (recorder refuses_readyz) (applier refuses_readyz) default_flags []).1)
    ≡ true
startup_is_in_order_example = startup_is_in_order refuses_readyz default_flags

abbrev lacks_crd : Call → Result (Unit {0})
lacks_crd (get_crd name) = err missing
lacks_crd _ = ok tt

abbrev all_calls : List Call
all_calls = make_manager ∷ get_crd deployments_crd ∷ plan false

manager_runs_iff_example :
    (run_manager (recorder lacks_crd) (applier lacks_crd) default_flags [] ≡ (ok tt, all_calls))
    ↔ Started lacks_crd all_calls
manager_runs_iff_example = manager_runs_iff lacks_crd default_flags all_calls

manager_runs :
    run_manager (recorder lacks_crd) (applier lacks_crd) default_flags [] ≡ (ok tt, all_calls)
unfolding run_manager is_installed add_controllers check_and_start setup_auth_realm setup_strategy
    setup_placement setup_cluster_oauth setup_manifest_work install_dex_operator_crds note
manager_runs = refl

abbrev willing : Manager Kinds
willing = record {
  new_manager = λ o. pure tt;
  get_crd = λ name. pure tt;
  add_to_scheme = λ p. pure tt;
  complete = λ r. pure tt;
  add_healthz_check = λ name. pure tt;
  add_readyz_check = λ name. pure tt;
  start = pure tt;
}

installer_runs :
    run_installer willing cluster (λ key. pure tt) default_flags everything ≡ (ok tt, everything)
unfolding run_installer setup check_prerequisite either_of is_rhacm is_mce has_items pod_key_of
    check_and_start
installer_runs = refl

installer_needs_product_example :
    (v : Kinds) × (willing.new_manager
        (options_of default_flags "installer.identitatem.io")
        everything
      ≡ (ok tt, v))
    × HasProduct cluster v
    × (cluster.getenv "POD_NAME" == "" ≡ false)
    × (cluster.getenv "POD_NAMESPACE" == "" ≡ false)
    × ((v₁ : Kinds) × (v₂ : Kinds) × (pure {W = Kinds} tt v₁ ≡ (ok tt, v₂)))
installer_needs_product_example =
    installer_needs_product cluster willing (λ key. pure tt) default_flags everything installer_runs
