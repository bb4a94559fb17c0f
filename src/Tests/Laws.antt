-- ===== src/Tests/Laws.antt =====
-- The laws that the deletions rely on, of an API server in memory on which strategies wait for their
-- finalizers.
use idp_mgmt_operator.Base.{
  ℕ, suc, ◌+◌, ◌<◌, ◌≤◌, length, map, ap, some, if◌then◌else◌, Bool, true, not, Bool-cases, List,
  [], ◌∷◌, ◌≡◌, refl, ◌⊎◌, inl, inr, arith,
}
use text.Mathlib.TextPositions.{eq_refl}
use idp_mgmt_operator.Api.Action.{ok, ok-injective}
use idp_mgmt_operator.Api.Meta.{ObjectMeta, ObjectKey, key_of, is_deleting}
use idp_mgmt_operator.Api.Identity.{Strategy}
use idp_mgmt_operator.Api.Dex.{DexServer}
use idp_mgmt_operator.Api.Objects.{Bare}
use idp_mgmt_operator.Api.Client.{Env, in_namespace}
use idp_mgmt_operator.Helpers.Names.{dex_server_namespace}
use idp_mgmt_operator.AuthRealm.Rounds.{Found, Got, absent, found, Clears, Answers}
use idp_mgmt_operator.Tests.Memory.{
  World, server, in_memory, find, keep, find_cases, found_is_dropped, has_key, fits,
}
use idp_mgmt_operator.Tests.AuthRealm.{leaving}

pub own_key : (meta : ObjectMeta) → has_key (key_of meta) meta ≡ true
own_key meta = ground (arith, eq_refl meta.name, eq_refl meta.namespace)

module _ {W A : Type 0} (meta : A → ObjectMeta) (items : W → List A) (put : List A → W → W)
    (Asked : W → W → Type 0) where
  -- What is found is deleted, if a shorter list counts as a deletion.
  in_memory-Found :
      (key : ObjectKey) (o : A) (w : W)
      → find meta key (items w) ≡ ok o
      → ((xs : List A) → length xs < length (items w) → Asked w (put xs w))
      → Found Asked (in_memory meta items put) key w
  in_memory-Found key o w e smaller =
      let gone : ObjectMeta → Bool = λ m. not (has_key (key_of (meta o)) m) in
      record {
        object = o;
        after = put (keep meta gone (items w)) w;
        got = rw e refl;
        deletes = refl;
        asked = smaller (keep meta gone (items w)) (found_is_dropped meta key o (items w) e);
      }

  in_memory-Got :
      (key : ObjectKey) (w : W)
      → ((xs : List A) → length xs < length (items w) → Asked w (put xs w))
      → Got Asked (in_memory meta items put) key w
  in_memory-Got key w smaller = elim (find_cases meta key (items w)) [
    | inl e ↦ absent (rw e refl)
    | inr (o, e) ↦ found (in_memory-Found key o w e smaller)
  ]

-- What holds while only deletions go on: the AuthRealm is there, there is one dex server at most, and
-- there are no dex clients.
pub record IsCalm (w : World) : Type 0 where
  pub realm : w.auth_realms ≡ leaving ∷ []
  pub clients : w.dex_clients ≡ []
  pub one_server : (w.dex_servers ≡ []) ⊎ ((d : DexServer) × (w.dex_servers ≡ d ∷ []))

abbrev pub size : World → ℕ
size w =
    length w.strategies
    + length w.namespaces
    + length w.dex_servers
    + length w.dex_clients
    + length w.secrets
    + length w.cluster_oauths

abbrev pub req : ObjectKey
req = key_of leaving.meta

abbrev mark : ObjectKey → Strategy → Strategy
mark key s =
    if has_key key s.meta
    then record s { meta = record (s.meta) { deletion_timestamp = some 1 } }
    else s

-- Strategies have finalizers: a deletion only marks them.
abbrev pub slow : Env World
slow = record server {
  strategies = record (server.strategies) {
    delete = λ o w. (ok tt, record w { strategies = map (mark (key_of o.meta)) w.strategies });
  };
}

abbrev unmarked : List Strategy → List Strategy
unmarked [] = []
unmarked (s ∷ ss) = if is_deleting s.meta then unmarked ss else s ∷ unmarked ss

-- Later the strategies that are marked have lost their finalizers.
abbrev pub finish : World → World
finish w = record w { strategies = unmarked w.strategies }

length-unmarked : (ss : List Strategy) → length (unmarked ss) ≤ length ss
length-unmarked [] = omega arith
length-unmarked (s ∷ ss) =
    let le = length-unmarked ss in
    elim (Bool-cases (is_deleting s.meta)) [
      | inl e ↦ rw e (omega arith)
      | inr e ↦ rw e (omega arith)
    ]

length-marked : (key : ObjectKey) (ss : List Strategy) → length (map (mark key) ss) ≡ length ss
length-marked key [] = refl
length-marked key (s ∷ ss) = ap suc (length-marked key ss)

marked_goes :
    (key : ObjectKey) (o : Strategy) (ss : List Strategy)
    → find (λ (s : Strategy). s.meta) key ss ≡ ok o
    → length (unmarked (map (mark (key_of o.meta)) ss)) < length ss
marked_goes key o [] h = absurd (ground arith)
marked_goes key o (s ∷ ss) h =
    let marked = map (mark (key_of o.meta)) ss in
    let le = length-unmarked marked in
    let same_length = length-marked (key_of o.meta) ss in
    elim (Bool-cases (has_key key s.meta)) [
      | inl e ↦
          let same : s ≡ o = ok-injective (rw e at h) in rw (same, own_key o.meta) (omega arith)
      | inr e ↦
          let lt = marked_goes key o ss (rw e at h) in
          elim (Bool-cases (is_deleting (mark (key_of o.meta) s).meta)) [
            | inl e' ↦ rw e' (omega arith)
            | inr e' ↦ rw e' (omega arith)
          ]
    ]

-- What has been asked for is done later.
abbrev pub IsAsked : World → World → Type 0
IsAsked w v = (size (finish v) < size w) × IsCalm (finish v)

strategies_law : (key : ObjectKey) (w : World) → IsCalm w → Got IsAsked slow.strategies key w
strategies_law key w calm = elim (find_cases (λ (s : Strategy). s.meta) key w.strategies) [
  | inl e ↦ absent (rw e refl)
  | inr (o, e) ↦ found (record {
    object = o;
    after = record w { strategies = map (mark (key_of o.meta)) w.strategies };
    got = rw e refl;
    deletes = refl;
    asked = (
      omega (arith, marked_goes key o w.strategies e),
      record { realm = calm.realm; clients = calm.clients; one_server = calm.one_server },
    );
  })
]

fewer_namespaces :
    (w : World) (xs : List Bare)
    → length xs < length w.namespaces
    → size (finish (record w { namespaces = xs })) < size w
fewer_namespaces w xs lt =
    let le = length-unmarked w.strategies in
    let less : length (unmarked w.strategies)
          + length xs
          + length w.dex_servers
          + length w.dex_clients
          + length w.secrets
          + length w.cluster_oauths
        < size w =
      omega arith in
    less

namespaces_law : (key : ObjectKey) (w : World) → IsCalm w → Got IsAsked slow.namespaces key w
namespaces_law key w calm =
    in_memory-Got (λ (s : Bare). s.meta) (λ w. w.namespaces) (λ xs w. record w { namespaces = xs })
      IsAsked key w
      (λ xs lt. (
        fewer_namespaces w xs lt,
        record { realm = calm.realm; clients = calm.clients; one_server = calm.one_server },
      ))

servers_law :
    (w : World)
    → IsCalm w
    → (ds : List DexServer) × (slow.dex_servers.list (in_namespace (dex_server_namespace leaving)) w
        ≡ ok ds)
      × Clears IsAsked slow.dex_servers w ds w
servers_law w calm = elim calm.one_server [
  | inl e ↦ ([], rw e refl, Clears.nothing)
  | inr (d, e) ↦ elim (Bool-cases (fits (in_namespace (dex_server_namespace leaving)) d.meta)) [
    | inl e' ↦ (
      d ∷ [],
      rw (e, e') refl,
      Clears.one_more refl
          (
            rw (e, own_key d.meta) (omega (arith, length-unmarked w.strategies)),
            record {
              realm = calm.realm;
              clients = calm.clients;
              one_server = inl (rw (e, own_key d.meta) refl);
            },
          )
          Clears.nothing,
    )
    | inr e' ↦ ([], rw (e, e') refl, Clears.nothing)
  ]
]

pub laws : Answers slow req leaving IsCalm IsAsked
laws = record {
  target_found = λ w calm. rw (calm.realm) refl;
  realms_listed = λ w calm. (leaving ∷ [], rw (calm.realm) refl);
  servers_listed = servers_law;
  strategies = strategies_law;
  namespaces = namespaces_law;
  bindings = λ key w calm. absent refl;
  roles = λ key w calm. absent refl;
}
