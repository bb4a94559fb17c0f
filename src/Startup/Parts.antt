-- ===== src/Startup/Parts.antt =====
-- The calls that each part of the start makes.
use idp_mgmt_operator.Base.{Bool, true, false, List, [], ◌∷◌, if◌then◌else◌}
use idp_mgmt_operator.Api.Action.{Result, continue, reify, pure}
use idp_mgmt_operator.Startup.Setup.{
  setup_auth_realm, setup_strategy, setup_placement, setup_cluster_oauth, setup_manifest_work,
  setup_hypershift_deployment, realm_packages, work_packages, deployment_packages,
  strategy_packages, placement_packages, oauth_packages,
}
use idp_mgmt_operator.AuthRealm.Reconcile.{install_dex_operator_crds}
use idp_mgmt_operator.Startup.Commands.{
  deployments_crd, is_installed, check_and_start, add_controllers,
}
use idp_mgmt_operator.Startup.Calls.{
  Call, make_manager, get_crd, add_healthz, add_readyz, start, recorder, applier, Performs,
  in_order, one_call, no_call, packages-Performs,
}
use idp_mgmt_operator.Startup.Plan.{
  realm_calls, strategy_calls, placement_calls, oauth_calls, work_calls, deployment_calls, plan,
}

module _ (answer : Call → Result (Unit {0})) where
  realm-Performs : Performs answer (setup_auth_realm (recorder answer) (applier answer)) realm_calls
  unfolding setup_auth_realm install_dex_operator_crds
  realm-Performs =
      in_order answer _ _ (packages-Performs answer realm_packages)
        (in_order answer _ _ (one_call answer _) (one_call answer _))

  strategy-Performs :
      Performs answer (setup_strategy (recorder answer) (applier answer)) strategy_calls
  unfolding setup_strategy
  strategy-Performs =
      in_order answer _ _ (one_call answer _)
        (in_order answer _ _ (packages-Performs answer strategy_packages) (one_call answer _))

  placement-Performs :
      Performs answer (setup_placement (recorder answer) (applier answer)) placement_calls
  unfolding setup_placement
  placement-Performs =
      in_order answer _ _ (one_call answer _)
        (in_order answer _ _ (packages-Performs answer placement_packages) (one_call answer _))

  oauth-Performs :
      (installed : Bool)
      → Performs answer
          (setup_cluster_oauth (recorder answer) (applier answer) installed)
          (oauth_calls installed)
  unfolding setup_cluster_oauth
  oauth-Performs true = in_order answer _ _ (one_call answer _) (
      in_order answer _ _ (packages-Performs answer oauth_packages)
        (in_order answer _ _ (one_call answer _) (one_call answer _)))
  oauth-Performs false = in_order answer _ _ (one_call answer _) (
      in_order answer _ _ (packages-Performs answer oauth_packages)
        (in_order answer _ _ (no_call answer) (one_call answer _)))

  work-Performs : Performs answer (setup_manifest_work (recorder answer)) work_calls
  unfolding setup_manifest_work
  work-Performs = in_order answer _ _ (packages-Performs answer work_packages) (one_call answer _)

  deployment-Performs :
      (installed : Bool)
      → Performs answer
          (if installed then setup_hypershift_deployment (recorder answer) else pure tt)
          (if installed then deployment_calls else [])
  unfolding setup_hypershift_deployment
  deployment-Performs true =
      in_order answer _ _ (packages-Performs answer deployment_packages) (one_call answer _)
  deployment-Performs false = no_call answer

  end-Performs :
      Performs answer
        (check_and_start (recorder answer))
        (add_healthz "healthz" ∷ add_readyz "readyz" ∷ start ∷ [])
  unfolding check_and_start
  end-Performs =
      in_order answer _ _ (one_call answer (add_healthz "healthz"))
        (in_order answer _ _ (one_call answer (add_readyz "readyz")) (one_call answer start))

  -- The controllers are added and the manager is started by the calls of the plan.
  pub add_controllers-Performs :
      (installed : Bool)
      → Performs answer
          (add_controllers (recorder answer) (applier answer) installed)
          (plan installed)
  unfolding add_controllers
  add_controllers-Performs installed = in_order answer _ _ realm-Performs (
      in_order answer _ _ strategy-Performs (
        in_order answer _ _ placement-Performs (
          in_order answer _ _ (oauth-Performs installed) (
            in_order answer _ _ work-Performs
              (in_order answer _ _ (deployment-Performs installed) end-Performs)))))

  -- What is done before the controllers are added.
  abbrev pub asked : List Call
  asked = make_manager ∷ get_crd deployments_crd ∷ []

  -- The rest, of the answer to the request for the definition of hypershift deployments.
  unfoldable pub after_asking : Result (Unit {0}) → Result (Unit {0}) × List Call
  after_asking r =
      continue (add_controllers (recorder answer) (applier answer))
        (continue is_installed (reify (r, asked)))
