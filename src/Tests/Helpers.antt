-- ===== src/Tests/Helpers.antt =====
-- Random texts from concrete bytes.
use idp_mgmt_operator.Base.{ℕ, some, List, [], ◌∷◌, ◌≡◌, ◌↔◌, String, refl, length, All, codes}
use idp_mgmt_operator.Api.Action.{ok}
use idp_mgmt_operator.Helpers.Random.{number, dictionary, random_string, pick_all, pick, pick_below}
use idp_mgmt_operator.Api.Meta.{ObjectKey, new_meta}
use idp_mgmt_operator.Api.Identity.{AuthRealm, backplane, hypershift}
use idp_mgmt_operator.Helpers.Names.{dex_server_namespace, dex_client_name, strategy_name}
use idp_mgmt_operator.Helpers.Naming.{names_determine}
use idp_mgmt_operator.Tests.Memory.{server}
use idp_mgmt_operator.Helpers.RandomBounds.{IsLetter, random_string_lem}

random_string_lem_example :
    (cs : List ℕ) × (random_string 3 number (some (7 ∷ 12 ∷ 255 ∷ [])) ≡ ok cs)
    × (length cs ≡ 3)
    × All (IsLetter (codes (dictionary number))) cs
random_string_lem_example = random_string_lem 3 number (7 ∷ 12 ∷ 255 ∷ []) tt refl

random_string_of_bytes :
    random_string 3 number (some (7 ∷ 12 ∷ 255 ∷ [])) ≡ ok (b'7' ∷ b'2' ∷ b'5' ∷ [])
unfolding random_string dictionary pick_all pick pick_below
random_string_of_bytes = refl

abbrev realm_at : String → AuthRealm
realm_at sub_domain = record {
  meta = new_meta "realm" "ns";
  spec = record {
    type = "";
    route_sub_domain = sub_domain;
    host = "";
    placement_ref = "placement";
    certificates_secret_ref = "";
    identity_providers = [];
    github_load_all_groups = [];
    ldap_group_search = [];
  };
  conditions = [];
  strategies = [];
}

abbrev realm_key : ObjectKey
realm_key = record { name = "realm"; namespace = "ns" }

names_determine_example :
    ((dex_server_namespace (realm_at "one") ≡ dex_server_namespace (realm_at "two"))
      ↔ ((realm_at "one").spec.route_sub_domain ≡ (realm_at "two").spec.route_sub_domain))
    × ((strategy_name server.strategy_type_text (realm_at "one") backplane
          ≡ strategy_name server.strategy_type_text (realm_at "one") hypershift)
        ↔ (server.strategy_type_text backplane ≡ server.strategy_type_text hypershift))
    × ((dex_client_name realm_key "c" ≡ dex_client_name realm_key "d") ↔ (◌≡◌ {A = String} "c" "d"))
names_determine_example =
    names_determine server.strategy_type_text (realm_at "one") (realm_at "two") backplane hypershift
      realm_key "c" "d"
