-- ===== src/Tests/Chain.antt =====
-- A placement is deleted before its AuthRealm, which has a dex client.
use idp_mgmt_operator.Base.{String, false, none, some, [], ◌∷◌, ◌≡◌, refl}
use idp_mgmt_operator.Api.Action.{ok, requeue_in_1s}
use idp_mgmt_operator.Api.Meta.{ObjectKey, new_meta}
use idp_mgmt_operator.Api.Identity.{Strategy, StrategyType}
use idp_mgmt_operator.Api.Objects.{Placement, PlacementDecision, DexClient}
use idp_mgmt_operator.Api.Client.{in_namespace}
use idp_mgmt_operator.Helpers.Names.{dex_server_namespace, strategy_type_label}
use idp_mgmt_operator.AuthRealm.DexServer.{new_dex_server}
use idp_mgmt_operator.AuthRealm.Deletion.{process_authrealm_deletion}
use idp_mgmt_operator.Placement.Reconcile.{reconcile_instance}
use idp_mgmt_operator.Chain.Outlive.{deleted_placement_blocks_realm}
use idp_mgmt_operator.Tests.Memory.{World, empty_world, server}
use idp_mgmt_operator.Tests.Sample.{live, secret}
use idp_mgmt_operator.Tests.AuthRealm.{leaving}

abbrev strategy : Strategy
strategy = record {
  meta = new_meta "realm-backplane" "ns";
  type = StrategyType.backplane;
  placement_ref = "placement-backplane";
  conditions = [];
}

abbrev placement : Placement
placement = record {
  meta = record (new_meta "placement-backplane" "ns") {
    owner_references = record { kind = "Strategy"; name = "realm-backplane"; uid = "" } ∷ [];
  };
  spec = record { cluster_sets = []; number_of_clusters = none; predicates = [] };
  number_of_selected_clusters = 1;
  conditions = [];
}

abbrev client : DexClient
client = record {
  meta = record (new_meta "first-realm" "idp-mgmt-my-domain") {
    labels = (strategy_type_label, "backplane") ∷ ("cluster.identitatem.io/name", "first") ∷ [];
  };
  public = false;
  client_id = "first-realm";
  client_secret_ref = record { kind = ""; name = "secret"; namespace = "" };
  redirect_uris = [];
  related_objects = [];
}

abbrev decision : PlacementDecision
decision = record {
  meta = record (new_meta "decision-1" "ns") {
    labels = ("cluster.open-cluster-management.io/placement", "placement-backplane") ∷ [];
  };
  decisions = "first" ∷ [];
}

abbrev occupied : World
occupied = record empty_world {
  auth_realms = leaving ∷ [];
  dex_servers = new_dex_server "idp-mgmt-my-domain" ∷ [];
  namespaces = record { meta = new_meta "idp-mgmt-my-domain" "" } ∷ [];
  strategies = strategy ∷ [];
  dex_clients = client ∷ [];
  placement_decisions = decision ∷ [];
  secrets = secret ∷ [];
  cluster_oauths = live ∷ [];
}

abbrev random : ObjectKey → String
random key = "secret"

abbrev leaving_placement : Placement
leaving_placement = record placement {
  meta = record (placement.meta) { deletion_timestamp = some 1 };
}

client_is_listed :
    server.dex_clients.list (in_namespace (dex_server_namespace leaving)) occupied
    ≡ ok (client ∷ [])
unfolding dex_server_namespace
client_is_listed = refl

deleted_placement_blocks_realm_example :
    process_authrealm_deletion server leaving
      (reconcile_instance server random leaving_placement occupied).1
    ≡ (ok requeue_in_1s, (reconcile_instance server random leaving_placement occupied).1)
deleted_placement_blocks_realm_example =
    deleted_placement_blocks_realm server leaving (λ o w. refl) (λ o w. refl) (λ o w. refl) random
      leaving_placement client [] occupied refl client_is_listed
