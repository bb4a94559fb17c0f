-- ===== src/AuthRealm/Rounds.antt =====
-- One reconciliation of an AuthRealm that is being deleted: it finds nothing to do, or asks for deletions
-- and to come back.
use idp_mgmt_operator.Base.{ℕ, zero, suc, some, List, [], ◌∷◌, ◌≡◌, refl}
use idp_mgmt_operator.Api.Action.{
  Action, Result, ok, ◌>>=◌, CtrlResult, done, requeue_in_1s, pure, read, or_not_found, for_each,
  unless_requeue,
}
use idp_mgmt_operator.Api.Meta.{ObjectKey}
use idp_mgmt_operator.Api.Identity.{AuthRealm}
use idp_mgmt_operator.Api.Dex.{DexServer}
use idp_mgmt_operator.Api.Client.{Resource, Env, in_namespace, all_namespaces}
use idp_mgmt_operator.Helpers.Names.{dex_server_namespace}
use idp_mgmt_operator.AuthRealm.DexServer.{
  delete_found, delete_if_found, delete_dex_servers, delete_servers_and_namespace,
  after_dex_clients, process_dex_server_deletion,
}
use idp_mgmt_operator.AuthRealm.Deletion.{
  delete_strategy, delete_strategies, delete_operator_objects, delete_dex_operator, count_served,
  process_authrealm_deletion,
}
use idp_mgmt_operator.AuthRealm.Absence.{IsAbsent}

-- `Asked w v` says that the world `v` has come from `w` by deletions that the server has accepted,
-- one at least. The objects need not be gone: they may wait for their finalizers.
module _ {W : Type 0} (Asked : W → W → Type 0) where
  -- A `Get` finds an object, whose deletion is accepted.
  pub record Found {A : Type 0} (resource : Resource W A) (key : ObjectKey) (w : W) : Type 0 where
    pub object : A
    pub after : W
    pub got : or_not_found (resource.get key w) ≡ ok (some object)
    pub deletes : resource.delete object w ≡ (ok tt, after)
    pub asked : Asked w after

  -- A `Get` finds nothing or such an object.
  pub data Got {A : Type 0} (resource : Resource W A) (key : ObjectKey) (w : W) : Type 0 where
    absent : IsAbsent resource key w → Got resource key w
    found : Found resource key w → Got resource key w

  -- The deletions of the listed objects are accepted, one after the other, since the world `origin`.
  pub data Clears {A : Type 0} (resource : Resource W A) (origin : W) : List A → W → Type 0 where
    nothing : {w : W} → Clears resource origin [] w
    one_more :
        {o : A} {os : List A} {w v : W}
        → resource.delete o w ≡ (ok tt, v)
        → Asked origin v
        → Clears resource origin os v
        → Clears resource origin (o ∷ os) w

  -- A step of the deletion finds nothing to do, or asks for deletions and to come back.
  pub data Advance (m : Action W CtrlResult) (w : W) : Type 0 where
    settled : m w ≡ (ok done, w) → Advance m w
    advanced : {v : W} → m w ≡ (ok requeue_in_1s, v) → Asked w v → Advance m w

  in_turn :
      (m k : Action W CtrlResult) (w : W)
      → Advance m w
      → Advance k w
      → Advance (unless_requeue m k) w
  in_turn m k w (settled e) (settled e') = settled (rw (e, e') refl)
  in_turn m k w (settled e) (advanced e' asked) = advanced (rw (e, e') refl) asked
  in_turn m k w (advanced e asked) next = advanced (rw e refl) asked

  -- What is read is known, and the step goes on with it.
  read-Advance :
      {A : Type 0} (get : W → Result A) (k : A → Action W CtrlResult) (w : W) {a : A}
      → get w ≡ ok a
      → Advance (k a) w
      → Advance (read get >>= k) w
  read-Advance get k w e (settled e') = settled (rw (e, e') refl)
  read-Advance get k w e (advanced e' asked) = advanced (rw (e, e') refl) asked

  pure-Advance : (w : W) → Advance (pure done) w
  pure-Advance w = settled refl

  delete_if_found-Advance :
      {A : Type 0} (resource : Resource W A) (key : ObjectKey) (w : W)
      → Got resource key w
      → Advance (delete_if_found resource key) w
  unfolding delete_if_found delete_found
  delete_if_found-Advance resource key w (absent e) = settled (rw e refl)
  delete_if_found-Advance resource key w (found f) = advanced (rw (f.got, f.deletes) refl) f.asked

  each_is_deleted :
      {A : Type 0} (resource : Resource W A) (origin : W) (os : List A) (w : W)
      → Asked origin w
      → Clears resource origin os w
      → (v : W) × (for_each os resource.delete w ≡ (ok tt, v)) × Asked origin v
  each_is_deleted resource origin [] w asked nothing = (w, refl, asked)
  each_is_deleted resource origin (o ∷ os) w asked (one_more {v} deleted asked' rest) =
      let (v', e, asked'') = each_is_deleted resource origin os v asked' rest in
      (v', rw deleted e, asked'')

-- No dex client is listed in the namespace of the AuthRealm's dex server.
abbrev pub NoClients : {W : Type 0} → Env W → AuthRealm → W → Type 0
NoClients env target w = env.dex_clients.list (in_namespace (dex_server_namespace target)) w ≡ ok []

module _ {W : Type 0} (env : Env W) (req : ObjectKey) (target : AuthRealm) where
  -- A server that answers in the worlds in which the deletion of the AuthRealm can go on: reads
  -- answer, the deletion of what is found is accepted, and the AuthRealm is the one that is being
  -- deleted.
  pub record Answers (IsCalm : W → Type 0) (Asked : W → W → Type 0) : Type 0 where
    pub target_found :
        (w : W) → IsCalm w → or_not_found (env.auth_realms.get req w) ≡ ok (some target)
    pub realms_listed :
        (w : W)
        → IsCalm w
        → (auth_realms : List AuthRealm) × (env.auth_realms.list all_namespaces w ≡ ok auth_realms)
    pub servers_listed :
        (w : W)
        → IsCalm w
        → (dex_servers : List DexServer) × (env.dex_servers.list
              (in_namespace (dex_server_namespace target))
              w
            ≡ ok dex_servers)
          × Clears Asked env.dex_servers w dex_servers w
    pub strategies : (key : ObjectKey) (w : W) → IsCalm w → Got Asked env.strategies key w
    pub namespaces : (key : ObjectKey) (w : W) → IsCalm w → Got Asked env.namespaces key w
    pub bindings : (key : ObjectKey) (w : W) → IsCalm w → Got Asked env.cluster_role_bindings key w
    pub roles : (key : ObjectKey) (w : W) → IsCalm w → Got Asked env.cluster_roles key w

module _ {W : Type 0} (env : Env W) (req : ObjectKey) (target : AuthRealm) (IsCalm : W → Type 0)
    (Asked : W → W → Type 0) (laws : Answers env req target IsCalm Asked) where
  strategies-Advance : (w : W) → IsCalm w → Advance Asked (delete_strategies env target) w
  unfolding delete_strategies delete_strategy
  strategies-Advance w calm =
      in_turn Asked _ _ w
        (delete_if_found-Advance Asked env.strategies _ w (laws.strategies _ w calm))
        (in_turn Asked _ _ w
          (delete_if_found-Advance Asked env.strategies _ w (laws.strategies _ w calm))
          (pure-Advance Asked w))

  operator-Advance : (n : ℕ) (w : W) → IsCalm w → Advance Asked (delete_operator_objects env n) w
  unfolding delete_operator_objects
  operator-Advance (suc n) w calm = pure-Advance Asked w
  operator-Advance zero w calm =
      in_turn Asked _ _ w
        (delete_if_found-Advance Asked env.namespaces _ w (laws.namespaces _ w calm))
        (in_turn Asked _ _ w
          (delete_if_found-Advance Asked env.cluster_role_bindings _ w (laws.bindings _ w calm))
          (in_turn Asked _ _ w
            (delete_if_found-Advance Asked env.cluster_roles _ w (laws.roles _ w calm))
            (pure-Advance Asked w)))

  dex_operator-Advance : (w : W) → IsCalm w → Advance Asked (delete_dex_operator env) w
  unfolding delete_dex_operator
  dex_operator-Advance w calm =
      let (auth_realms, e) = laws.realms_listed w calm in
      read-Advance Asked (env.auth_realms.list all_namespaces)
        (λ auth_realms. delete_operator_objects env (count_served env auth_realms)) w e
        (operator-Advance (count_served env auth_realms) w calm)

  dex_servers-Advance :
      (dex_servers : List DexServer) (w : W)
      → IsCalm w
      → Clears Asked env.dex_servers w dex_servers w
      → Advance Asked (delete_dex_servers env dex_servers) w
  unfolding delete_dex_servers
  dex_servers-Advance [] w calm clears = pure-Advance Asked w
  dex_servers-Advance (d ∷ ds) w calm (Clears.one_more {v} deleted asked rest) =
      let (v', e, asked') = each_is_deleted Asked env.dex_servers w ds v asked rest in
      Advance.advanced {v = v'} (rw (deleted, e) refl) asked'

  dex_server-Advance :
      (w : W)
      → IsCalm w
      → NoClients env target w
      → Advance Asked (process_dex_server_deletion env target) w
  unfolding process_dex_server_deletion after_dex_clients delete_servers_and_namespace
  dex_server-Advance w calm free =
      let namespace = dex_server_namespace target in
      let (dex_servers, e, clears) = laws.servers_listed w calm in
      read-Advance Asked (env.dex_clients.list (in_namespace namespace))
        (after_dex_clients env namespace) w free
        (read-Advance Asked (env.dex_servers.list (in_namespace namespace)) _ w e (
          in_turn Asked _ _ w (dex_servers-Advance dex_servers w calm clears)
            (delete_if_found-Advance Asked env.namespaces _ w (laws.namespaces _ w calm))))

  pub deletion-Advance :
      (w : W)
      → IsCalm w
      → NoClients env target w
      → Advance Asked (process_authrealm_deletion env target) w
  unfolding process_authrealm_deletion
  deletion-Advance w calm free =
      in_turn Asked _ _ w (dex_server-Advance w calm free)
        (in_turn Asked _ _ w (strategies-Advance w calm) (dex_operator-Advance w calm))
