-- ===== src/Tests/Status.antt =====
-- The status controllers at concrete objects.
use idp_mgmt_operator.Base.{
  String, false, ◌&&◌, none, some, List, [], ◌∷◌, ◌≡◌, ◌⊎◌, ◌==◌, if◌then◌else◌,
}
use idp_mgmt_operator.Api.Action.{err, Error, pure, ◌>>◌}
use idp_mgmt_operator.Api.Meta.{new_meta}
use idp_mgmt_operator.Api.Identity.{ClusterOAuth, ClusterStatus, StrategySummary}
use idp_mgmt_operator.Api.Work.{ManifestWork, HypershiftDeployment}
use idp_mgmt_operator.Helpers.Entries.{entry}
use idp_mgmt_operator.Status.Manifest.{
  set_manifest_work, update_authrealm_status_manifest_work_conditions,
}
use idp_mgmt_operator.Status.Written.{work_status_written}
use idp_mgmt_operator.Tests.Sample.{summary, realm, reference}
use idp_mgmt_operator.Tests.Memory.{World, empty_world, server}

abbrev cluster_oauth : ClusterOAuth
cluster_oauth = record {
  meta = new_meta "realm-ns" "second";
  oauth = some [];
  auth_realm_reference = reference "realm";
  strategy_reference = reference "realm-backplane";
  dex_client_reference = reference "";
  conditions = [];
}

abbrev work : String → String → ManifestWork
work name namespace = record {
  meta = new_meta name namespace;
  propagation_policy = "Orphan";
  manifests = [];
  conditions = [];
  resource_status = "applied";
}

abbrev deployment : HypershiftDeployment
deployment = record {
  meta = new_meta "deployment" "clusters";
  infra_id = "second";
  configuration = none;
  conditions = [];
  phase = "running";
}

abbrev world : World
world = record empty_world { manifest_works = work "second" "clusters" ∷ [] }

work_status_written_example :
    ((e : Error) × (update_authrealm_status_manifest_work_conditions server realm cluster_oauth
          (work "idp-oauth" "second")
          false
          world
        ≡ (err e, world))
      × (entry "realm-backplane" "second" (summary ∷ []) ≡ none))
    ⊎ ((ss : List StrategySummary) × (old : ClusterStatus)
        × (update_authrealm_status_manifest_work_conditions server realm cluster_oauth
              (work "idp-oauth" "second")
              false
              world
            ≡ (server.auth_realms.patch_status realm (record realm { strategies = ss }) >> pure tt)
                world)
        × (entry "realm-backplane" "second" (summary ∷ []) ≡ some old)
        × (entry "realm-backplane" "first" ss ≡ (
            if "realm-backplane" == "realm-backplane" && "second" == "first"
            then some (set_manifest_work (work "idp-oauth" "second") false old)
            else entry "realm-backplane" "first" (summary ∷ []))))
work_status_written_example =
    work_status_written server realm cluster_oauth (work "idp-oauth" "second") false
      "realm-backplane" "first" world
