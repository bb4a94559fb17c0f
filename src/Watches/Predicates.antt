-- ===== src/Watches/Predicates.antt =====
-- The predicates of the AuthRealm, placement, manifest work and hypershift deployment controllers.
-- `equality.Semantic.DeepEqual` is a parameter at each type.
use idp_mgmt_operator.Base.{
  ℕ, String, Bool, true, false, not, ◌&&◌, ◌||◌, ◌==◌, Option, none, some, List,
}
use idp_mgmt_operator.Api.Meta.{is_deleting}
use idp_mgmt_operator.Api.Identity.{AuthRealm, AuthRealmSpec}
use idp_mgmt_operator.Api.Objects.{Placement}
use idp_mgmt_operator.Api.Work.{ManifestWork, HypershiftDeployment}
use idp_mgmt_operator.Helpers.Names.{manifest_work_oauth_name}
use idp_mgmt_operator.Placement.Decisions.{is_linked_to_strategy}

-- `event.CreateEvent`, `DeleteEvent`, `UpdateEvent`, `GenericEvent`
pub data Event (A : Type 0) : Type 0 where
  created : A → Event A
  deleted : A → Event A
  -- the old object, the new object, and whether both are one object in memory, as on a resync
  updated : A → A → Bool → Event A
  generic : A → Event A

-- `old.DeletionTimestamp != new.DeletionTimestamp`, which compares pointers
unfoldable pub timestamps_differ : Bool → Option ℕ → Option ℕ → Bool
timestamps_differ same none none = false
timestamps_differ same none (some t) = true
timestamps_differ same (some t) none = true
timestamps_differ same (some t) (some t') = not same

module _ (finalizers_equal : List String → List String → Bool)
    (specs_equal : AuthRealmSpec → AuthRealmSpec → Bool) where
  unfoldable pub has_changed : AuthRealm → AuthRealm → Bool
  has_changed old new =
      not (finalizers_equal old.meta.finalizers new.meta.finalizers)
      || not (specs_equal old.spec new.spec)

  -- `authRealmPredicate` of the AuthRealm controller
  unfoldable pub auth_realm_predicate : Event AuthRealm → Bool
  auth_realm_predicate (generic o) = false
  auth_realm_predicate (deleted o) = true
  auth_realm_predicate (created o) = true
  auth_realm_predicate (updated old new same) = has_changed old new || is_deleting new.meta

  -- `authRealmPredicate` of the placement controller
  unfoldable pub watched_realm_predicate : Event AuthRealm → Bool
  watched_realm_predicate (generic o) = false
  watched_realm_predicate (deleted o) = true
  watched_realm_predicate (created o) = true
  watched_realm_predicate (updated old new same) =
      has_changed old new
      || timestamps_differ same old.meta.deletion_timestamp new.meta.deletion_timestamp

-- `placementPredicate`
unfoldable pub placement_predicate : Event Placement → Bool
placement_predicate (generic o) = false
placement_predicate (deleted o) = is_linked_to_strategy o.meta
placement_predicate (created o) = is_linked_to_strategy o.meta
placement_predicate (updated old new same) =
    is_linked_to_strategy new.meta || is_linked_to_strategy old.meta

-- The predicate of the manifest work controller: an event without a function of its own passes.
unfoldable pub manifest_work_predicate :
    (ManifestWork → ManifestWork → Bool) → Event ManifestWork → Bool
manifest_work_predicate statuses_equal (updated old new same) =
    new.meta.name == manifest_work_oauth_name
    && (not (statuses_equal old new)
        || timestamps_differ same old.meta.deletion_timestamp new.meta.deletion_timestamp)
manifest_work_predicate statuses_equal (created o) = true
manifest_work_predicate statuses_equal (deleted o) = true
manifest_work_predicate statuses_equal (generic o) = true

-- The predicate of the hypershift deployment controller
unfoldable pub deployment_predicate :
    (HypershiftDeployment → HypershiftDeployment → Bool) → Event HypershiftDeployment → Bool
deployment_predicate statuses_equal (updated old new same) =
    not (statuses_equal old new)
    || timestamps_differ same old.meta.deletion_timestamp new.meta.deletion_timestamp
deployment_predicate statuses_equal (created o) = true
deployment_predicate statuses_equal (deleted o) = true
deployment_predicate statuses_equal (generic o) = true
