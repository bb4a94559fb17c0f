-- ===== src/Tests/Memory.antt =====
-- An API server in memory, on which the properties are tried out.
use idp_mgmt_operator.Base.{
  ◌⊎◌, refl, String, Bool, Bool-cases, inl, inr, length, ◌≤◌, ◌<◌, true, not, ◌&&◌, Option, none,
  some, List, [], ◌∷◌, ◌++◌, ◌==◌, all, if◌then◌else◌, ◌≡◌, arith,
}
use text.Mathlib.TextPositions.{eq_refl}
use idp_mgmt_operator.Api.Action.{or_not_found, Action, Result, ok, err, not_found, Error, errorf}
use idp_mgmt_operator.Api.Meta.{
  new_meta, key_of, Labels, ObjectMeta, ObjectKey, lookup, value_or_empty,
}
use idp_mgmt_operator.Api.Identity.{AuthRealm, Strategy, StrategyType, ClusterOAuth}
use idp_mgmt_operator.Api.Objects.{Placement, PlacementDecision, Secret, DexClient, Bare}
use idp_mgmt_operator.Api.Dex.{DexServer}
use idp_mgmt_operator.Api.Work.{
  ConfigMap, ManifestWork, ManagedClusterView, HypershiftDeployment, Hub,
}
use Prim.Native.String.{slice}
use idp_mgmt_operator.Api.Client.{Resource, ListOptions, Env}

abbrev pub missing : Error
missing = record { kind = not_found; message = "not found" }

abbrev pub has_key : ObjectKey → ObjectMeta → Bool
has_key key meta = meta.name == key.name && meta.namespace == key.namespace

abbrev pub in_scope_of : Option String → String → Bool
in_scope_of none namespace = true
in_scope_of (some n) namespace = n == namespace

abbrev pub has_label : Labels → String × String → Bool
has_label labels (k, v) = value_or_empty (lookup k labels) == v

abbrev pub fits : ListOptions → ObjectMeta → Bool
fits options meta =
    in_scope_of options.namespace meta.namespace
    && all (has_label meta.labels) options.matching_labels

module _ {A : Type 0} (meta : A → ObjectMeta) where
  abbrev pub find : ObjectKey → List A → Result A
  find key [] = err missing
  find key (x ∷ xs) = if has_key key (meta x) then ok x else find key xs

  abbrev pub keep : (ObjectMeta → Bool) → List A → List A
  keep p [] = []
  keep p (x ∷ xs) = if p (meta x) then x ∷ keep p xs else keep p xs

  length-keep : (p : ObjectMeta → Bool) (xs : List A) → length (keep p xs) ≤ length xs
  length-keep p [] = omega arith
  length-keep p (x ∷ xs) = ground (arith, length-keep p xs)

  -- What has been got is deleted from the list.
  pub found_is_dropped :
      (key : ObjectKey) (o : A) (xs : List A)
      → find key xs ≡ ok o
      → length (keep (λ m. not (has_key (key_of (meta o)) m)) xs) < length xs
  found_is_dropped key o [] h = absurd (ground arith)
  found_is_dropped key o (x ∷ xs) h = elim (Bool-cases (has_key key (meta x))) [
    | inl e ↦
        let same : x ≡ o = cc in
        let own : has_key (key_of (meta o)) (meta o) ≡ true =
          ground (arith, eq_refl (meta o).name, eq_refl (meta o).namespace) in
        let le = length-keep (λ m. not (has_key (key_of (meta o)) m)) xs in
        rw (same, own) (omega arith)
    | inr e ↦
        let lt = found_is_dropped key o xs (rw e at h) in
        elim (Bool-cases (has_key (key_of (meta o)) (meta x))) [
          | inl e' ↦ rw e' (omega arith)
          | inr e' ↦ rw e' (omega arith)
        ]
  ]

  pub find_cases :
      (key : ObjectKey) (xs : List A)
      → (find key xs ≡ err missing) ⊎ ((o : A) × (find key xs ≡ ok o))
  find_cases key [] = inl refl
  find_cases key (x ∷ xs) = elim (Bool-cases (has_key key (meta x))) [
    | inl e ↦ inr (x, rw e refl)
    | inr e ↦ rw e (find_cases key xs)
  ]

  find-append :
      (key : ObjectKey) (x : A) (xs : List A)
      → or_not_found (find key xs) ≡ ok none
      → has_key key (meta x) ≡ true
      → find key (xs ++ x ∷ []) ≡ ok x
  find-append key x [] missing h = ground arith
  find-append key x (y ∷ xs) missing h = ground (arith, find-append key x xs)

module _ {W A : Type 0} (meta : A → ObjectMeta) (items : W → List A) (put : List A → W → W) where
  abbrev replace : A → List A → List A
  replace y [] = []
  replace y (x ∷ xs) = (if has_key (key_of (meta y)) (meta x) then y else x) ∷ replace y xs

  abbrev write : A → Action W A
  write x w = (ok x, put (replace x (items w)) w)

  -- A resource over one list of the world: deletion takes effect at once.
  abbrev pub in_memory : Resource W A
  in_memory = record {
    get = λ key w. find meta key (items w);
    list = λ options w. ok (keep meta (fits options) (items w));
    create = λ x w. (ok x, put (items w ++ x ∷ []) w);
    update = write;
    delete = λ x w. (ok tt, put (keep meta (λ m. not (has_key (key_of (meta x)) m)) (items w)) w);
    update_status = write;
    patch_status = λ base x. write x;
  }

  -- What has been created is got again, if nothing had its key before.
  pub gets_created :
      (x x' : A) (v v' : W)
      → items (put (items v ++ x ∷ []) v) ≡ items v ++ x ∷ []
      → or_not_found (in_memory.get (key_of (meta x)) v) ≡ ok none
      → in_memory.create x v ≡ (ok x', v')
      → in_memory.get (key_of (meta x)) v' ≡ ok x'
  gets_created x x' v v' stored missing made =
      let same : x ≡ x' = cc in
      let after : put (items v ++ x ∷ []) v ≡ v' = cc in
      let found =
        find-append meta (key_of (meta x)) x (items v) missing
          (ground (arith, eq_refl (meta x).name, eq_refl (meta x).namespace)) in
      rw (← after, stored, ← same) found

pub record World : Type 0 where
  pub auth_realms : List AuthRealm
  pub strategies : List Strategy
  pub cluster_oauths : List ClusterOAuth
  pub placements : List Placement
  pub placement_decisions : List PlacementDecision
  pub secrets : List Secret
  pub dex_clients : List DexClient
  pub dex_servers : List DexServer
  pub namespaces : List Bare
  pub config_maps : List ConfigMap
  pub manifest_works : List ManifestWork
  pub managed_cluster_views : List ManagedClusterView
  pub hypershift_deployments : List HypershiftDeployment

abbrev pub empty_world : World
empty_world = record {
  auth_realms = [];
  strategies = [];
  cluster_oauths = [];
  placements = [];
  placement_decisions = [];
  secrets = [];
  dex_clients = [];
  dex_servers = [];
  namespaces = [];
  config_maps = [];
  manifest_works = [];
  managed_cluster_views = [];
  hypershift_deployments = [];
}

-- No managed clusters and no roles are needed in the tests.
abbrev none_of : {A : Type 0} → (A → ObjectMeta) → Resource World A
none_of meta = in_memory meta (λ w. []) (λ xs w. w)

abbrev type_text : StrategyType → String
type_text StrategyType.backplane = "backplane"
type_text StrategyType.hypershift = "hypershift"
type_text (StrategyType.other t) = t

abbrev pub server : Env World
server = record {
  auth_realms =
      in_memory (λ x. x.meta) (λ w. w.auth_realms) (λ xs w. record w { auth_realms = xs });
  strategies = in_memory (λ x. x.meta) (λ w. w.strategies) (λ xs w. record w { strategies = xs });
  cluster_oauths =
      in_memory (λ x. x.meta) (λ w. w.cluster_oauths) (λ xs w. record w { cluster_oauths = xs });
  placements = in_memory (λ x. x.meta) (λ w. w.placements) (λ xs w. record w { placements = xs });
  placement_decisions =
      in_memory (λ x. x.meta) (λ w. w.placement_decisions)
        (λ xs w. record w { placement_decisions = xs });
  managed_clusters = none_of (λ x. x.meta);
  secrets = in_memory (λ x. x.meta) (λ w. w.secrets) (λ xs w. record w { secrets = xs });
  dex_clients =
      in_memory (λ x. x.meta) (λ w. w.dex_clients) (λ xs w. record w { dex_clients = xs });
  dex_servers =
      in_memory (λ x. x.meta) (λ w. w.dex_servers) (λ xs w. record w { dex_servers = xs });
  namespaces = in_memory (λ x. x.meta) (λ w. w.namespaces) (λ xs w. record w { namespaces = xs });
  cluster_role_bindings = none_of (λ x. x.meta);
  cluster_roles = none_of (λ x. x.meta);
  api_server_url = λ w. ok "https://api.example.com:6443";
  add_finalizer = λ xs x. xs ++ x ∷ [];
  remove_finalizer = λ xs x. [];
  set_controller_reference =
      λ kind m refs. ok (refs ++ record { kind = kind; name = m.name; uid = m.uid } ∷ []);
  set_owner_reference =
      λ kind m refs. ok (refs ++ record { kind = kind; name = m.name; uid = m.uid } ∷ []);
  set_status_condition = λ cs c. cs ++ c ∷ [];
  parse_url = λ s. ok (record { scheme = "https"; host = "api.example.com:6443" });
  split_host_port = λ s. ok ("api.example.com", "6443");
  parse_ldap_url = λ s. err (errorf "no LDAP");
  strategy_type_text = type_text;
  strategy_applied = "Applied";
  authrealm_applied = "Applied";
  auth_proxy_dex = "dex";
  placement_label = "cluster.open-cluster-management.io/placement";
}

-- A view without a result, as it is applied.
abbrev pub new_view : String → String → ManagedClusterView
new_view name namespace = record { meta = new_meta name namespace; result = "" }

-- The items that are OAuths begin with this text in the tests.
abbrev oauth_name : String → Result String
oauth_name item = if slice item 0 5 == "oauth" then ok "cluster" else err (errorf "no OAuth")

abbrev pub hub : Hub World
hub = record {
  config_maps =
      in_memory (λ x. x.meta) (λ w. w.config_maps) (λ xs w. record w { config_maps = xs });
  manifest_works =
      in_memory (λ x. x.meta) (λ w. w.manifest_works) (λ xs w. record w { manifest_works = xs });
  managed_cluster_views =
      in_memory (λ x. x.meta) (λ w. w.managed_cluster_views)
        (λ xs w. record w { managed_cluster_views = xs });
  hypershift_deployments =
      in_memory (λ x. x.meta) (λ w. w.hypershift_deployments)
        (λ xs w. record w { hypershift_deployments = xs });
  marshal_oauth = λ o. ok "oauth";
  marshal_secret = λ s. ok "secret";
  unmarshal_oauth_name = oauth_name;
  json_to_yaml = λ s. ok s;
  yaml_to_json = λ s. ok s;
  asset = λ file. ok "role";
  apply_custom_resource = λ file name namespace w. (
    ok tt,
    record w { managed_cluster_views = w.managed_cluster_views ++ new_view name namespace ∷ [] },
  );
  now = λ w. "2026-01-01T00:00:00Z";
  manifest_applied = "Applied";
  cluster_oauth_applied = "Applied";
  orphan = "Orphan";
}
