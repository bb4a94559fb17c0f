-- ===== src/Tests/Placement.antt =====
-- The reconciler of a placement at concrete objects.
use idp_mgmt_operator.Base.{some, String, false, none, List, [], ◌∷◌, ◌≡◌, refl, ◌⊎◌, All}
use idp_mgmt_operator.Api.Action.{or_not_found, ok, done}
use idp_mgmt_operator.Api.Meta.{Reference, new_meta, key_of}
use idp_mgmt_operator.Api.Identity.{AuthRealm, Strategy, ClusterOAuth, backplane}
use idp_mgmt_operator.Api.Objects.{Placement, Secret, DexClient}
use idp_mgmt_operator.Api.Client.{in_namespace}
use idp_mgmt_operator.Helpers.Names.{cluster_oauth_name, client_secret_name}
use idp_mgmt_operator.Placement.Create.{create_client_secret}
use idp_mgmt_operator.Placement.Delete.{
  is_owned_by, to_be_deleted, delete_at, wait_for, awaited_key, delete_cluster_oauths,
  delete_cluster_oauth_config,
}
use idp_mgmt_operator.Placement.Removal.{IsGone, owned_oauths_removed}
use idp_mgmt_operator.Placement.Secrets.{secret_is_stable}
use idp_mgmt_operator.Tests.Memory.{World, empty_world, server, gets_created}

abbrev realm : AuthRealm
realm = record {
  meta = new_meta "realm" "ns";
  spec = record {
    type = "";
    route_sub_domain = "my-domain";
    host = "";
    placement_ref = "placement";
    certificates_secret_ref = "";
    identity_providers = [];
    github_load_all_groups = [];
    ldap_group_search = [];
  };
  conditions = [];
  strategies = [];
}

abbrev strategy : Strategy
strategy = record {
  meta = new_meta "realm-backplane" "ns";
  type = backplane;
  placement_ref = "placement-backplane";
  conditions = [];
}

abbrev placement : Placement
placement = record {
  meta = record (new_meta "placement-backplane" "ns") {
    owner_references = record { kind = "Strategy"; name = "realm-backplane"; uid = "uid" } ∷ [];
  };
  spec = record { cluster_sets = []; number_of_clusters = none; predicates = [] };
  number_of_selected_clusters = 1;
  conditions = [];
}

abbrev reference : String → Reference
reference name = record { kind = ""; name = name; namespace = "ns" }

abbrev oauth_at : String → ClusterOAuth
oauth_at cluster_name = record {
  meta = new_meta "realm-ns" cluster_name;
  oauth = some [];
  auth_realm_reference = reference "realm";
  strategy_reference = reference "realm-backplane";
  dex_client_reference = reference "";
  conditions = [];
}

abbrev client_for : String → String → DexClient
client_for name cluster_name = record {
  meta = record (new_meta name "idp-mgmt-my-domain") {
    labels =
        ("cluster.identitatem.io/name", cluster_name)
        ∷ ("identityprovider.identitatem.io/strategy-type", "backplane")
        ∷ [];
  };
  public = false;
  client_id = "";
  client_secret_ref = reference "";
  redirect_uris = [];
  related_objects = [];
}

abbrev secret_at : String → Secret
secret_at cluster_name = record {
  meta = new_meta "realm-ns" cluster_name;
  type = "";
  contents = ("clientSecret", "kept") ∷ [];
}

-- The placement has decided on the first cluster and no longer on the second.
abbrev world : World
world = record empty_world {
  placement_decisions =
      record {
        meta = record (new_meta "decision" "ns") {
          labels = ("cluster.open-cluster-management.io/placement", "placement-backplane") ∷ [];
        };
        decisions = "first" ∷ [];
      }
      ∷ [];
  cluster_oauths = oauth_at "first" ∷ oauth_at "second" ∷ [];
  dex_clients = client_for "first-realm" "first" ∷ client_for "second-realm" "second" ∷ [];
  secrets = secret_at "first" ∷ secret_at "second" ∷ [];
}

abbrev cleaned : World
cleaned = record world { cluster_oauths = oauth_at "first" ∷ []; secrets = secret_at "first" ∷ [] }

second_is_cleaned : delete_cluster_oauth_config server "second" placement world ≡ (ok done, cleaned)
unfolding delete_cluster_oauth_config delete_cluster_oauths to_be_deleted is_owned_by delete_at
    wait_for cluster_oauth_name client_secret_name
second_is_cleaned = refl

owned_oauths_removed_example :
    (cs : List ClusterOAuth) × (server.cluster_oauths.list (in_namespace "second") world ≡ ok cs)
    × All
        (λ c.
          (is_owned_by placement.meta.owner_references c ≡ false)
          ⊎ IsGone server.cluster_oauths (awaited_key "second" c) cleaned)
        cs
owned_oauths_removed_example =
    owned_oauths_removed server "second" placement world second_is_cleaned refl

abbrev settled : World
settled = record cleaned { dex_clients = client_for "first-realm" "first" ∷ [] }

-- The secret of a new cluster is created with the first random text.
abbrev opened : World
opened = record world {
  secrets =
      secret_at "first"
      ∷ secret_at "second"
      ∷ record {
        meta = new_meta "realm-ns" "third";
        type = "";
        contents = ("clientSecret", "one") ∷ [];
      }
      ∷ [];
}

abbrev third_secret : Secret
third_secret = record {
  meta = new_meta "realm-ns" "third";
  type = "";
  contents = ("clientSecret", "one") ∷ [];
}

third_is_created :
    create_client_secret server (λ key. "one") "third" realm world ≡ (ok third_secret, opened)
unfolding create_client_secret client_secret_name cluster_oauth_name
third_is_created = refl

secrets_are_got :
    (s s' : Secret) (v v' : World)
    → or_not_found (server.secrets.get (key_of s.meta) v) ≡ ok none
    → server.secrets.create s v ≡ (ok s', v')
    → server.secrets.get (key_of s.meta) v' ≡ ok s'
secrets_are_got s s' v v' missing made =
    gets_created (λ x. x.meta) (λ w. w.secrets) (λ xs w. record w { secrets = xs }) s s' v v' refl
      missing made

secret_is_stable_example :
    create_client_secret server (λ key. "two") "third" realm opened ≡ (ok third_secret, opened)
secret_is_stable_example =
    secret_is_stable server (λ key. "one") (λ key. "two") "third" realm world opened third_secret
      secrets_are_got third_is_created
