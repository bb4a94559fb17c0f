-- ===== src/AuthRealm/Absence.antt =====
-- What is gone when the deletion of a dex server has gone through.
use idp_mgmt_operator.Base.{
  String, false, Option, none, some, List, [], ◌∷◌, ◌≡◌, refl, sym, ◌∙◌, arith,
}
use idp_mgmt_operator.Api.Action.{
  ok, CtrlResult, requeue_in_1s, pure, read, or_not_found, for_each, unless_requeue, >>=-eq-ok,
  unless_requeue-eq-ok,
}
use idp_mgmt_operator.Api.Meta.{ObjectKey}
use idp_mgmt_operator.Api.Identity.{AuthRealm}
use idp_mgmt_operator.Api.Dex.{DexServer}
use idp_mgmt_operator.Api.Objects.{DexClient}
use idp_mgmt_operator.Api.Client.{Resource, Env, in_namespace}
use idp_mgmt_operator.Helpers.Names.{dex_server_namespace}
use idp_mgmt_operator.AuthRealm.DexServer.{
  cluster_key, delete_found, delete_if_found, delete_dex_servers, delete_servers_and_namespace,
  after_dex_clients, process_dex_server_deletion,
}

-- `Get` says that there is no such object.
abbrev pub IsAbsent : {W A : Type 0} → Resource W A → ObjectKey → W → Type 0
IsAbsent resource key w = or_not_found (resource.get key w) ≡ ok none

delete_found-quiet :
    {W A : Type 0} (resource : Resource W A) (o : Option A) (w : W) {r : CtrlResult} {w' : W}
    → delete_found resource o w ≡ (ok r, w')
    → r.requeue ≡ false
    → (w' ≡ w) × (o ≡ none)
unfolding delete_found
delete_found-quiet resource none w h quiet = (cc, refl)
delete_found-quiet resource (some o) w h quiet =
    let (u, v, deleted, rest) = >>=-eq-ok (resource.delete o) (λ _. pure requeue_in_1s) w h in
    absurd (ground arith)

pub delete_if_found-quiet :
    {W A : Type 0} (resource : Resource W A) (key : ObjectKey) (w : W) {r : CtrlResult} {w' : W}
    → delete_if_found resource key w ≡ (ok r, w')
    → r.requeue ≡ false
    → (w' ≡ w) × IsAbsent resource key w
unfolding delete_if_found
delete_if_found-quiet resource key w h quiet =
    let (o, v, found, rest) =
      >>=-eq-ok (read (λ w. or_not_found (resource.get key w))) (delete_found resource) w h in
    let (same, absent) = delete_found-quiet resource o v rest quiet in (same ∙ sym (cc found), cc)

module _ {W : Type 0} (env : Env W) where
  delete_dex_servers-quiet :
      (lds : List DexServer) (w : W) {r : CtrlResult} {w' : W}
      → delete_dex_servers env lds w ≡ (ok r, w')
      → r.requeue ≡ false
      → (w' ≡ w) × (lds ≡ [])
  unfolding delete_dex_servers
  delete_dex_servers-quiet [] w h quiet = (cc, refl)
  delete_dex_servers-quiet (ds ∷ dss) w h quiet =
      let (u, v, deleted, rest) =
        >>=-eq-ok (for_each (ds ∷ dss) env.dex_servers.delete) (λ _. pure requeue_in_1s) w h in
      absurd (ground arith)

  -- What is gone when the deletion of the dex server goes on: the dex clients and the dex servers of
  -- the AuthRealm's namespace, and the namespace.
  pub record DexServerIsGone (auth_realm : AuthRealm) (w : W) : Type 0 where
    pub no_dex_clients :
        env.dex_clients.list (in_namespace (dex_server_namespace auth_realm)) w ≡ ok []
    pub no_dex_servers :
        env.dex_servers.list (in_namespace (dex_server_namespace auth_realm)) w ≡ ok []
    pub no_namespace : IsAbsent env.namespaces (cluster_key (dex_server_namespace auth_realm)) w

  servers_and_namespace-quiet :
      (namespace : String) (w : W) {r : CtrlResult} {w' : W}
      → delete_servers_and_namespace env namespace w ≡ (ok r, w')
      → r.requeue ≡ false
      → (w' ≡ w)
        × (env.dex_servers.list (in_namespace namespace) w ≡ ok [])
        × IsAbsent env.namespaces (cluster_key namespace) w
  unfolding delete_servers_and_namespace
  servers_and_namespace-quiet namespace w h quiet =
      let (lds, v, listed, rest) =
        >>=-eq-ok (read (env.dex_servers.list (in_namespace namespace)))
          (λ lds.
            unless_requeue (delete_dex_servers env lds)
              (delete_if_found env.namespaces (cluster_key namespace)))
          w h in
      let (r₁, v₁, deleted, quiet₁, rest₁) =
        unless_requeue-eq-ok (delete_dex_servers env lds)
          (delete_if_found env.namespaces (cluster_key namespace)) v rest quiet in
      let (same, empty) = delete_dex_servers-quiet lds v deleted quiet₁ in
      let (same₁, absent) =
        delete_if_found-quiet env.namespaces (cluster_key namespace) v₁ rest₁ quiet in
      let start : v₁ ≡ w = same ∙ sym (cc listed) in (same₁ ∙ start, cc, rw (← start) absent)

  after_dex_clients-quiet :
      (namespace : String) (cs : List DexClient) (w : W) {r : CtrlResult} {w' : W}
      → after_dex_clients env namespace cs w ≡ (ok r, w')
      → r.requeue ≡ false
      → (cs ≡ []) × (delete_servers_and_namespace env namespace w ≡ (ok r, w'))
  unfolding after_dex_clients
  after_dex_clients-quiet namespace [] w h quiet = (refl, h)
  after_dex_clients-quiet namespace (c ∷ cs) w h quiet = absurd (ground arith)

  pub process_dex_server_deletion-quiet :
      (auth_realm : AuthRealm) (w : W) {r : CtrlResult} {w' : W}
      → process_dex_server_deletion env auth_realm w ≡ (ok r, w')
      → r.requeue ≡ false
      → (w' ≡ w) × DexServerIsGone auth_realm w
  unfolding process_dex_server_deletion
  process_dex_server_deletion-quiet auth_realm w h quiet =
      let namespace = dex_server_namespace auth_realm in
      let (cs, v, listed, rest) =
        >>=-eq-ok (read (env.dex_clients.list (in_namespace namespace)))
          (after_dex_clients env namespace) w h in
      let (none_left, rest₁) = after_dex_clients-quiet namespace cs v rest quiet in
      let start : v ≡ w = sym (cc listed) in
      let (same, servers, absent) =
        servers_and_namespace-quiet namespace w (rw start at rest₁) quiet in
      (same, record { no_dex_clients = cc; no_dex_servers = servers; no_namespace = absent })
