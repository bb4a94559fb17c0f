-- ===== src/Tests/Sample.antt =====
-- A ClusterOAuth with its strategy, its secret and the original OAuth of its cluster.

use idp_mgmt_operator.Base.{String, none, some, [], ◌∷◌}
use idp_mgmt_operator.Api.Meta.{Reference, new_meta}
use idp_mgmt_operator.Api.Identity.{
  Strategy, ClusterOAuth, IdentityProvider, backplane, openid, AuthRealm, StrategySummary,
}
use idp_mgmt_operator.Api.Objects.{Secret}
use idp_mgmt_operator.Api.Work.{ConfigMap}
use idp_mgmt_operator.Helpers.Position.{new_cluster_status}
use idp_mgmt_operator.Tests.Memory.{World, empty_world}

abbrev pub reference : String → Reference
reference name = record { kind = ""; name = name; namespace = "ns" }

abbrev pub provider : IdentityProvider
provider = record {
  name = "realm";
  mapping_method = "";
  type = openid;
  github_config = none;
  ldap_config = none;
  openid_config = some (record {
    client_id = "id";
    client_secret = "realm-ns";
    issuer = "";
    extra_scopes = [];
    email_claims = [];
    name_claims = [];
    preferred_username_claims = [];
    groups_claims = [];
  });
}

abbrev pub live : ClusterOAuth
live = record {
  meta = new_meta "realm-ns" "first";
  oauth = some (provider ∷ []);
  auth_realm_reference = reference "realm";
  strategy_reference = reference "realm-backplane";
  dex_client_reference = reference "";
  conditions = [];
}

abbrev pub dying : ClusterOAuth
dying = record live { meta = record (new_meta "old-ns" "first") { deletion_timestamp = some 1 } }

abbrev pub strategy : Strategy
strategy = record {
  meta = new_meta "realm-backplane" "ns";
  type = backplane;
  placement_ref = "";
  conditions = [];
}

abbrev pub secret : Secret
secret = record { meta = new_meta "realm-ns" "first"; type = ""; contents = [] }

abbrev pub original : ConfigMap
original = record {
  meta = new_meta "idp-oauth-original" "first";
  contents = ("json", "oauth original") ∷ [];
}

abbrev pub world : World
world = record empty_world {
  strategies = strategy ∷ [];
  cluster_oauths = live ∷ [];
  secrets = secret ∷ [];
  config_maps = original ∷ [];
}

abbrev pub summary : StrategySummary
summary = record {
  name = "realm-backplane";
  conditions = [];
  placement = record { name = ""; number_of_selected_clusters = 0; conditions = [] };
  clusters = new_cluster_status "first" ∷ new_cluster_status "second" ∷ [];
}

abbrev pub realm : AuthRealm
realm = record {
  meta = new_meta "realm" "ns";
  spec = record {
    type = "";
    route_sub_domain = "my-domain";
    host = "";
    placement_ref = "placement";
    certificates_secret_ref = "";
    identity_providers = [];
    github_load_all_groups = [];
    ldap_group_search = [];
  };
  conditions = [];
  strategies = summary ∷ [];
}
