-- ===== src/Tests/OAuth.antt =====
-- The manager of a cluster with its own control plane and the reconciler of a ClusterOAuth at
-- concrete objects.

use idp_mgmt_operator.Base.{suc, false, true, ◌&&◌, none, some, List, [], ◌∷◌, ◌≡◌, refl, ◌⊎◌, ◌==◌}
use idp_mgmt_operator.Api.Action.{ok, panic, done, pure, ◌>>◌, or_not_found}
use idp_mgmt_operator.Api.Meta.{condition_true, new_meta, lookup, value_or_empty, key_of}
use idp_mgmt_operator.Api.Identity.{
  AuthRealm, ClusterOAuth, StrategySummary, OpenIdProvider, IdentityProvider,
}
use idp_mgmt_operator.Api.Work.{ManifestWork}
use idp_mgmt_operator.Helpers.Names.{
  manifest_work_oauth_name, cluster_oauth_name, client_secret_name,
}
use idp_mgmt_operator.Helpers.Entries.{entry}
use idp_mgmt_operator.OAuth.Aggregate.{
  get_original_oauth, generate_aggregated_role, aggregate_cluster_oauths, add_cluster_oauths,
  add_providers, prefix_secret, append_provider, secret_for,
}
use idp_mgmt_operator.OAuth.Backplane.{
  unmanage_last, delete_manifest_work, delete_work, delete_ignoring_not_found, ignore_not_found,
  restore_original_oauth, create_or_update_manifest_work, write_work, secrets_of, secret_manifests,
  save, save_unless_saved, push,
}
use idp_mgmt_operator.OAuth.Report.{delete_auth_realm_conditions}
use idp_mgmt_operator.OAuth.Reconcile.{save_and_push, process_finalized, process_cluster_oauth}
use idp_mgmt_operator.OAuth.Providers.{all_providers, LiveNil, union_of_providers}
use idp_mgmt_operator.OAuth.Progress.{process_never_requeues}
use idp_mgmt_operator.OAuth.Applied.{Ends, original_kept_until_applied}
use idp_mgmt_operator.OAuth.Forget.{times, clusters_under, cluster_forgotten}
use idp_mgmt_operator.Tests.Memory.{World, server, hub}
use idp_mgmt_operator.Api.Objects.{DexClient}
use idp_mgmt_operator.Helpers.Lookup.{get_apps_url, replace_first}
use idp_mgmt_operator.Placement.Create.{object_key, create_cluster_oauth}
use idp_mgmt_operator.OAuth.Wiring.{pushed_secret_is_referenced}
use idp_mgmt_operator.Tests.Sample.{
  summary, realm, provider, reference, secret, strategy, live, dying, world,
}

union_of_providers_example :
    (aggregate_cluster_oauths (dying ∷ live ∷ [])
      ≡ ok (record { name = "cluster"; identity_providers = all_providers (dying ∷ live ∷ []) }))
    ⊎ ((aggregate_cluster_oauths (dying ∷ live ∷ []) ≡ panic) × LiveNil (dying ∷ live ∷ []))
union_of_providers_example = union_of_providers (dying ∷ live ∷ [])

-- The world and the ClusterOAuth after a round.
abbrev processed : World × ClusterOAuth
processed = (process_cluster_oauth server hub (world, live)).1

round_succeeds : process_cluster_oauth server hub (world, live) ≡ (ok done, processed)
unfolding process_cluster_oauth process_finalized save_and_push save save_unless_saved push
    generate_aggregated_role aggregate_cluster_oauths add_cluster_oauths add_providers prefix_secret
    append_provider secret_manifests secrets_of create_or_update_manifest_work write_work
round_succeeds = refl

process_never_requeues_example : done.requeue ≡ false
process_never_requeues_example = process_never_requeues server hub live world round_succeeds

-- The manifest work with the original has been applied in an earlier round.
abbrev original_work : ManifestWork
original_work = record {
  meta = new_meta "idp-oauth-original" "first";
  propagation_policy = "Orphan";
  manifests = [];
  conditions = record { type = "Applied"; status = condition_true; reason = ""; message = "" } ∷ [];
  resource_status = "";
}

abbrev leaving : World
leaving = record world { cluster_oauths = dying ∷ []; manifest_works = original_work ∷ [] }

-- The world after the deletion of the aggregated work, and the one after the restoration.
abbrev undeployed : World
undeployed = (delete_manifest_work hub manifest_work_oauth_name "first" leaving).1

abbrev restored : World
restored = (restore_original_oauth hub dying undeployed).1

work_is_deleted :
    delete_manifest_work hub manifest_work_oauth_name "first" leaving ≡ (ok tt, undeployed)
unfolding delete_manifest_work delete_work delete_ignoring_not_found ignore_not_found
work_is_deleted = refl

original_is_restored : restore_original_oauth hub dying undeployed ≡ (ok tt, restored)
unfolding restore_original_oauth get_original_oauth generate_aggregated_role
    create_or_update_manifest_work write_work lookup value_or_empty delete_manifest_work delete_work
    delete_ignoring_not_found ignore_not_found
original_is_restored = refl

original_kept_until_applied_example :
    Ends hub dying (unmanage_last hub dying leaving) (ok tt) restored
original_kept_until_applied_example =
    original_kept_until_applied hub dying leaving undeployed restored (ok tt) work_is_deleted
      original_is_restored

abbrev reported : World
reported = record world { auth_realms = realm ∷ [] }

cluster_forgotten_example :
    ((delete_auth_realm_conditions server live reported ≡ (ok tt, reported))
      × (entry "realm-backplane" "first" (summary ∷ []) ≡ none))
    ⊎ ((ss : List StrategySummary) × (delete_auth_realm_conditions server live reported
          ≡ (server.auth_realms.patch_status realm (record realm { strategies = ss }) >> pure tt)
              reported)
        × (suc (times "first" (clusters_under "realm-backplane" ss))
            ≡ times "first" (clusters_under "realm-backplane" (summary ∷ [])))
        × ((("realm-backplane" == "realm-backplane" && "first" == "second") ≡ true)
            ⊎ (entry "realm-backplane" "second" ss
                ≡ entry "realm-backplane" "second" (summary ∷ []))))
cluster_forgotten_example =
    cluster_forgotten server live realm "realm-backplane" "second" reported refl

abbrev configured : AuthRealm
configured = record realm { spec = record (realm.spec) { identity_providers = provider ∷ [] } }

abbrev client : DexClient
client = record {
  meta = new_meta "third-realm" "idp-mgmt-my-domain";
  public = false;
  client_id = "";
  client_secret_ref = reference "realm-ns";
  redirect_uris = [];
  related_objects = [];
}

url_is_known : get_apps_url server false world ≡ (ok ("https", "apps.example.com"), world)
unfolding get_apps_url replace_first
url_is_known = refl

nothing_there :
    or_not_found (
      server.cluster_oauths.get
        (record { name = cluster_oauth_name (object_key configured); namespace = "third" })
        world)
    ≡ ok none
unfolding cluster_oauth_name
nothing_there = refl

pushed_secret_is_referenced_example :
    (c : ClusterOAuth) × (idp : IdentityProvider) × (o : OpenIdProvider) × (create_cluster_oauth
        server configured strategy "third" client world
      ≡ (server.cluster_oauths.create c >> pure tt) world)
    × (key_of c.meta
        ≡ record { name = client_secret_name (object_key configured); namespace = "third" })
    × (aggregate_cluster_oauths (c ∷ [])
        ≡ ok (record { name = "cluster"; identity_providers = idp ∷ [] }))
    × (idp.openid_config ≡ some o)
    × (o.client_secret ≡ (secret_for "openshift-config" c.meta.namespace secret).meta.name)
pushed_secret_is_referenced_example =
    pushed_secret_is_referenced server configured strategy "third" "openshift-config" "https"
      "apps.example.com" "" client secret world world nothing_there url_is_known refl refl
