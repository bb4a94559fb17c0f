-- ===== src/Startup/Setup.antt =====
-- `SetupWithManager` of the controllers of the manager. The one of the installer is in
-- Installer/Reconcile.
use idp_mgmt_operator.Base.{Bool, List, [], ◌∷◌, ◌++◌, if◌then◌else◌}
use idp_mgmt_operator.Api.Action.{Action, pure, for_each, ◌>>◌}
use idp_mgmt_operator.AuthRealm.Reconcile.{Installer, install_dex_operator_crds}
use idp_mgmt_operator.Startup.Manager.{
  Package, identitatem, dex_operator, core, apps, work, cluster_v1, cluster_v1alpha1,
  openshift_config, view, hypershift, hypershift_deployment, auth_realm, strategy, cluster_oauth,
  placement, manifest_work, secret, dex_server, dex_client, hosted_deployment, for_kind, owns,
  watches, realm_controller, strategy_controller, placement_controller, oauth_controller,
  work_controller, deployment_controller, Registration, Manager,
}

-- The registrations of the builders.
abbrev pub realm_registration : Registration
realm_registration = record {
  controller = realm_controller;
  sources = for_kind auth_realm ∷ owns strategy ∷ watches dex_server ∷ owns dex_server ∷ [];
}

abbrev pub strategy_registration : Registration
strategy_registration = record {
  controller = strategy_controller;
  sources = for_kind strategy ∷ owns placement ∷ watches placement ∷ [];
}

abbrev pub placement_registration : Registration
placement_registration = record {
  controller = placement_controller;
  sources = for_kind placement ∷ watches auth_realm ∷ watches dex_client ∷ [];
}

-- The hypershift deployments are watched if their definition is installed.
abbrev pub oauth_registration : Bool → Registration
oauth_registration hypershift_deployment_installed = record {
  controller = oauth_controller;
  sources =
      (for_kind cluster_oauth ∷ owns manifest_work ∷ watches secret ∷ [])
      ++ (if hypershift_deployment_installed then watches hosted_deployment ∷ [] else []);
}

abbrev pub work_registration : Registration
work_registration = record { controller = work_controller; sources = for_kind manifest_work ∷ [] }

abbrev pub deployment_registration : Registration
deployment_registration = record {
  controller = deployment_controller;
  sources = for_kind hosted_deployment ∷ [];
}

-- The packages in the order in which they are added.
abbrev pub realm_packages : List Package
realm_packages = identitatem ∷ dex_operator ∷ apps ∷ []

abbrev pub work_packages : List Package
work_packages = core ∷ identitatem ∷ work ∷ []

abbrev pub deployment_packages : List Package
deployment_packages = core ∷ identitatem ∷ hypershift_deployment ∷ []

abbrev pub strategy_packages : List Package
strategy_packages =
    identitatem ∷ cluster_v1alpha1 ∷ cluster_v1 ∷ work ∷ dex_operator ∷ openshift_config ∷ []

abbrev pub placement_packages : List Package
placement_packages =
    dex_operator ∷ identitatem ∷ cluster_v1alpha1 ∷ cluster_v1 ∷ work ∷ openshift_config
    ∷ hypershift ∷ []

abbrev pub oauth_packages : List Package
oauth_packages =
    core ∷ identitatem ∷ work ∷ dex_operator ∷ openshift_config ∷ view ∷ hypershift ∷ []

module _ {W : Type 0} (mgr : Manager W) where
  -- `SetupWithManager` of manifestwork_controller.go
  unfoldable pub setup_manifest_work : Action W (Unit {0})
  setup_manifest_work = for_each work_packages mgr.add_to_scheme >> mgr.complete work_registration

  -- `SetupWithManager` of hypershiftdeployment_controller.go
  unfoldable pub setup_hypershift_deployment : Action W (Unit {0})
  setup_hypershift_deployment =
      for_each deployment_packages mgr.add_to_scheme >> mgr.complete deployment_registration

module _ {W : Type 0} (mgr : Manager W) (installer : Installer W) where
  -- `SetupWithManager` of authrealm_controller.go, which ends with `installDexOperatorCRDs`.
  unfoldable pub setup_auth_realm : Action W (Unit {0})
  setup_auth_realm =
      for_each realm_packages mgr.add_to_scheme
      >> (install_dex_operator_crds installer >> mgr.complete realm_registration)

  -- `SetupWithManager` of strategy_controller.go
  unfoldable pub setup_strategy : Action W (Unit {0})
  setup_strategy =
      installer.apply_crds ("crd/bases/identityconfig.identitatem.io_strategies.yaml" ∷ [])
      >> (for_each strategy_packages mgr.add_to_scheme >> mgr.complete strategy_registration)

  -- `SetupWithManager` of placement_controller.go
  unfoldable pub setup_placement : Action W (Unit {0})
  setup_placement =
      installer.apply_crds ("crd/bases/identityconfig.identitatem.io_clusteroauths.yaml" ∷ [])
      >> (for_each placement_packages mgr.add_to_scheme >> mgr.complete placement_registration)

  -- `SetupWithManager` of clusteroauth_controller.go
  unfoldable pub setup_cluster_oauth : Bool → Action W (Unit {0})
  setup_cluster_oauth hypershift_deployment_installed =
      installer.apply_crds ("crd/bases/identityconfig.identitatem.io_clusteroauths.yaml" ∷ [])
      >> (for_each oauth_packages mgr.add_to_scheme
          >> ((if hypershift_deployment_installed
                then mgr.add_to_scheme hypershift_deployment
                else pure tt)
              >> mgr.complete (oauth_registration hypershift_deployment_installed)))
