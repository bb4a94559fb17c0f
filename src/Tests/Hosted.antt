-- ===== src/Tests/Hosted.antt =====
-- The manager of a hosted cluster at concrete objects.

use idp_mgmt_operator.Base.{
  String, false, true, some, List, [], ◌∷◌, ◌≡◌, refl, ◌⊎◌, inl, inr, All, Bool-cases, arith,
  eq_iff,
}
use idp_mgmt_operator.Api.Action.{ok-injective, ok}
use idp_mgmt_operator.Api.Meta.{ObjectKey, new_meta}
use idp_mgmt_operator.Api.Objects.{Secret}
use idp_mgmt_operator.Api.Work.{HypershiftDeployment, ConfigMap}
use idp_mgmt_operator.OAuth.Hypershift.{
  save, is_listed, push_all_secrets, push_secrets, copy_secret, update_existing,
}
use idp_mgmt_operator.OAuth.Undone.{after_pushes}
use idp_mgmt_operator.Helpers.Names.{hypershift_deployment_infra_id_label}
use idp_mgmt_operator.OAuth.References.{IsReferenced, references_complete}
use idp_mgmt_operator.Tests.Memory.{World, server, hub, find, has_key}
use idp_mgmt_operator.Tests.Sample.{live, dying, world}

abbrev items : List String
items = "role" ∷ "oauth original" ∷ "proxy" ∷ []

abbrev original : ConfigMap
original = record {
  meta = new_meta "idp-oauth-original" "first";
  contents = ("json", "oauth original") ∷ ("yaml", "oauth original") ∷ [];
}

abbrev deployment : HypershiftDeployment
deployment = record {
  meta = record (new_meta "deployment" "clusters") {
    labels = (hypershift_deployment_infra_id_label, "first") ∷ [];
  };
  infra_id = "first";
  configuration = some (record { items = items; secret_refs = [] });
  conditions = [];
  phase = "";
}

-- Before `Save`, after it, and after two pushes.
abbrev unsaved : World
unsaved = record world { config_maps = []; hypershift_deployments = deployment ∷ [] }

abbrev saved : World
saved = (save hub live unsaved).1

abbrev deployed : World
deployed = record saved {
  hypershift_deployments = after_pushes hub ("oauth one" ∷ "oauth two" ∷ []) deployment ∷ [];
}

found_name :
    (key : ObjectKey) (ss : List Secret) (s : Secret)
    → find (λ (x : Secret). x.meta) key ss ≡ ok s
    → s.meta.name ≡ key.name
found_name key [] s h = absurd (ground arith)
found_name key (x ∷ ss) s h = elim (Bool-cases (has_key key x.meta)) [
  | inl e ↦
      let same : x ≡ s = ok-injective (rw e at h) in
      rw (← same) (ground (arith, eq_iff x.meta.name key.name))
  | inr e ↦ found_name key ss s (rw e at h)
]

secrets_got_by_name :
    (key : ObjectKey) (w : World) (s : Secret)
    → server.secrets.get key w ≡ ok s
    → s.meta.name ≡ key.name
secrets_got_by_name key w s h = found_name key w.secrets s h

abbrev pushed_world : World
pushed_world = (push_all_secrets server "clusters" ("kept" ∷ []) (dying ∷ live ∷ []) world).1

secrets_are_pushed :
    push_all_secrets server "clusters" ("kept" ∷ []) (dying ∷ live ∷ []) world
    ≡ (ok ("kept" ∷ "first-realm-ns" ∷ []), pushed_world)
unfolding push_all_secrets push_secrets copy_secret update_existing is_listed
secrets_are_pushed = refl

references_complete_example :
    ((is_listed "kept" ("kept" ∷ []) ≡ false)
      ⊎ (is_listed "kept" ("kept" ∷ "first-realm-ns" ∷ []) ≡ true))
    × All (IsReferenced ("kept" ∷ "first-realm-ns" ∷ [])) (dying ∷ live ∷ [])
references_complete_example =
    references_complete server secrets_got_by_name "clusters" "kept" ("kept" ∷ [])
      (dying ∷ live ∷ []) world secrets_are_pushed
