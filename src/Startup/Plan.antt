-- ===== src/Startup/Plan.antt =====
-- The calls that the manager makes if none of them fails, and what it is for calls to be in order.
use idp_mgmt_operator.Base.{
  ◌≡◌, refl, ℕ, Bool, true, false, ◌&&◌, List, [], ◌∷◌, ◌++◌, map, all, nat_eq, if◌then◌else◌,
}
use idp_mgmt_operator.Startup.Manager.{
  Package, identitatem, dex_operator, core, apps, work, cluster_v1, cluster_v1alpha1,
  openshift_config, view, hypershift, hypershift_deployment, Source, for_kind, owns, watches,
  Controller, Registration, realm_controller, strategy_controller, placement_controller,
  oauth_controller, work_controller, deployment_controller, package_of,
}
use idp_mgmt_operator.Startup.Setup.{
  realm_registration, strategy_registration, placement_registration, oauth_registration,
  work_registration, deployment_registration, realm_packages, work_packages, deployment_packages,
  strategy_packages, placement_packages, oauth_packages,
}
use idp_mgmt_operator.Startup.Calls.{
  Call, make_manager, get_crd, apply, add, complete, add_healthz, add_readyz, start,
}

abbrev pub realm_calls : List Call
realm_calls =
    map add realm_packages
    ++ (apply (
          "crd/bases/auth.identitatem.io_dexclients.yaml"
          ∷ "crd/bases/auth.identitatem.io_dexservers.yaml" ∷ [])
        ∷ [])
    ++ complete realm_registration ∷ []

abbrev pub strategy_calls : List Call
strategy_calls =
    (apply ("crd/bases/identityconfig.identitatem.io_strategies.yaml" ∷ []) ∷ [])
    ++ map add strategy_packages
    ++ complete strategy_registration ∷ []

abbrev pub placement_calls : List Call
placement_calls =
    (apply ("crd/bases/identityconfig.identitatem.io_clusteroauths.yaml" ∷ []) ∷ [])
    ++ map add placement_packages
    ++ complete placement_registration ∷ []

abbrev pub oauth_calls : Bool → List Call
oauth_calls installed =
    (apply ("crd/bases/identityconfig.identitatem.io_clusteroauths.yaml" ∷ []) ∷ [])
    ++ map add oauth_packages
    ++ (if installed then add hypershift_deployment ∷ [] else [])
    ++ complete (oauth_registration installed) ∷ []

abbrev pub work_calls : List Call
work_calls = map add work_packages ++ complete work_registration ∷ []

abbrev pub deployment_calls : List Call
deployment_calls = map add deployment_packages ++ complete deployment_registration ∷ []

-- All the calls, after the manager is made and it is known whether the definition of hypershift
-- deployments is installed.
abbrev pub plan : Bool → List Call
plan installed =
    realm_calls
    ++ (strategy_calls
        ++ (placement_calls
            ++ (oauth_calls installed
                ++ (work_calls
                    ++ ((if installed then deployment_calls else [])
                        ++ (add_healthz "healthz" ∷ add_readyz "readyz" ∷ start ∷ []))))))

abbrev package_index : Package → ℕ
package_index identitatem = 0
package_index dex_operator = 1
package_index core = 2
package_index apps = 3
package_index work = 4
package_index cluster_v1 = 5
package_index cluster_v1alpha1 = 6
package_index openshift_config = 7
package_index view = 8
package_index hypershift = 9
package_index hypershift_deployment = 10

abbrev controller_index : Controller → ℕ
controller_index realm_controller = 0
controller_index strategy_controller = 1
controller_index placement_controller = 2
controller_index oauth_controller = 3
controller_index work_controller = 4
controller_index deployment_controller = 5

abbrev is_known : List Package → Package → Bool
is_known [] p = false
is_known (q ∷ known) p =
    if nat_eq (package_index p) (package_index q) then true else is_known known p

abbrev is_added : List Controller → Controller → Bool
is_added [] c = false
is_added (d ∷ added) c =
    if nat_eq (controller_index c) (controller_index d) then true else is_added added c

abbrev package_of_source : Source → Package
package_of_source (for_kind k) = package_of k
package_of_source (owns k) = package_of k
package_of_source (watches k) = package_of k

abbrev is_nil : List Call → Bool
is_nil [] = true
is_nil (c ∷ cs) = false

-- The packages of all that a controller watches are known.
unfoldable pub packages_known : List Package → Registration → Bool
packages_known known r = all (λ s. is_known known (package_of_source s)) r.sources

-- Calls are in order, after packages and controllers that have been added, if the package of each
-- kind that a controller watches is added before the controller, if the manager is started after the
-- controllers that it always has, and if its start is the last call.
unfoldable pub are_in_order : List Package → List Controller → List Call → Bool
are_in_order known added [] = true
are_in_order known added (add p ∷ cs) = are_in_order (p ∷ known) added cs
are_in_order known added (complete r ∷ cs) =
    packages_known known r && are_in_order known (r.controller ∷ added) cs
are_in_order known added (start ∷ cs) =
    is_nil cs
    && all (is_added added) (
        realm_controller ∷ strategy_controller ∷ placement_controller ∷ oauth_controller
        ∷ work_controller ∷ [])
are_in_order known added (make_manager ∷ cs) = are_in_order known added cs
are_in_order known added (get_crd name ∷ cs) = are_in_order known added cs
are_in_order known added (apply files ∷ cs) = are_in_order known added cs
are_in_order known added (add_healthz name ∷ cs) = are_in_order known added cs
are_in_order known added (add_readyz name ∷ cs) = are_in_order known added cs

pub plan_is_in_order : (installed : Bool) → are_in_order [] [] (plan installed) ≡ true
unfolding are_in_order package_of packages_known
plan_is_in_order true = refl
plan_is_in_order false = refl
