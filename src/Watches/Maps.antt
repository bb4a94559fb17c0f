-- ===== src/Watches/Maps.antt =====
-- The functions that map an object to the keys of the objects to reconcile.
use idp_mgmt_operator.Base.{String, not, ◌&&◌, List, [], ◌∷◌, ◌==◌, if◌then◌else◌}
use idp_mgmt_operator.Api.Action.{Result, ok, err, panic}
use idp_mgmt_operator.Api.Meta.{ObjectKey, Reference, key_of, is_deleting, lookup, value_or_empty}
use idp_mgmt_operator.Api.Identity.{AuthRealm, Strategy}
use idp_mgmt_operator.Api.Objects.{Placement, PlacementDecision, DexClient}
use idp_mgmt_operator.Api.Dex.{DexServer}
use idp_mgmt_operator.Api.Client.{Env, in_namespace}
use idp_mgmt_operator.Helpers.Names.{dashed}

-- A list that fails has no items.
abbrev pub listed : {A : Type 0} → Result (List A) → List A
listed (ok xs) = xs
listed (err e) = []
listed panic = []

abbrev pub reference_key : Reference → ObjectKey
reference_key r = record { name = r.name; namespace = r.namespace }

-- The loop of the DexServer watch of the AuthRealm controller.
unfoldable pub auth_realms_of_dex_server : DexServer → List Reference → List ObjectKey
auth_realms_of_dex_server dex_server [] = []
auth_realms_of_dex_server dex_server (r ∷ rs) =
    if not (is_deleting dex_server.meta) && r.kind == "AuthRealm"
    then reference_key r ∷ auth_realms_of_dex_server dex_server rs
    else auth_realms_of_dex_server dex_server rs

-- The request for what `Get` has found, before the others.
abbrev pub request_for : {A : Type 0} → (A → ObjectKey) → Result A → List ObjectKey → List ObjectKey
request_for key (ok o) keys = key o ∷ keys
request_for key (err e) keys = keys
request_for key panic keys = keys

abbrev pub placement_of : PlacementDecision → ObjectKey
placement_of d = record {
  name = value_or_empty (lookup "cluster.open-cluster-management.io/placement" d.meta.labels);
  namespace = d.meta.namespace;
}

module _ {W : Type 0} (env : Env W) where
  -- `PlacementStrategyNameFromPlacementRefName`, of a strategy and the name of a placement
  abbrev pub derived_name : Strategy → Placement → String
  derived_name strategy pl = dashed pl.meta.name (env.strategy_type_text strategy.type)

  -- The loop of the placement watch of the strategy controller.
  unfoldable pub strategies_derived : Placement → List Strategy → List ObjectKey
  strategies_derived pl [] = []
  strategies_derived pl (s ∷ ss) =
      if s.placement_ref == derived_name s pl
      then key_of s.meta ∷ strategies_derived pl ss
      else strategies_derived pl ss

  unfoldable pub strategies_of_placement : Placement → W → List ObjectKey
  strategies_of_placement pl w =
      strategies_derived pl (listed (env.strategies.list (in_namespace pl.meta.namespace) w))

  -- The loop of the AuthRealm watch of the placement controller.
  unfoldable pub placements_of_strategies : String → List Strategy → W → List ObjectKey
  placements_of_strategies namespace [] w = []
  placements_of_strategies namespace (s ∷ ss) w =
      request_for (λ pl. record { name = pl.meta.name; namespace = namespace })
        (env.placements.get (record { name = s.placement_ref; namespace = namespace }) w)
        (placements_of_strategies namespace ss w)

  unfoldable pub placements_of_auth_realm : AuthRealm → W → List ObjectKey
  placements_of_auth_realm auth_realm w =
      placements_of_strategies auth_realm.meta.namespace
        (listed (env.strategies.list (in_namespace auth_realm.meta.namespace) w)) w

  -- The DexClient watch of the placement controller.
  unfoldable pub placements_of_related : List Reference → W → List ObjectKey
  placements_of_related [] w = []
  placements_of_related (r ∷ rs) w =
      if r.kind == "PlacementDecision"
      then request_for placement_of (env.placement_decisions.get (reference_key r) w)
          (placements_of_related rs w)
      else placements_of_related rs w

  unfoldable pub placements_of_dex_client : DexClient → W → List ObjectKey
  placements_of_dex_client dex_client w = placements_of_related dex_client.related_objects w
