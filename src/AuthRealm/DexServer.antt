-- ===== src/AuthRealm/DexServer.antt =====
-- `createDexServer`, `updateDexServer` and `processDexServerDeletion` of
-- controllers/authrealm/dex.go.
use Prim.Native.String.{◌++◌}
use idp_mgmt_operator.Base.{String, true, false, Option, none, some, List, [], ◌∷◌, ◌==◌}
use idp_mgmt_operator.Api.Action.{
  Action, CtrlResult, done, requeue_in_1s, pure, read, lift, or_not_found, for_each, unless_requeue,
  ◌>>=◌, ◌>>◌,
}
use idp_mgmt_operator.Api.Meta.{ObjectKey, new_meta}
use idp_mgmt_operator.Api.Identity.{AuthRealm}
use idp_mgmt_operator.Api.Objects.{Secret, Bare, DexClient}
use idp_mgmt_operator.Api.Dex.{DexServer}
use idp_mgmt_operator.Api.Client.{Resource, Env, in_namespace}
use idp_mgmt_operator.Helpers.Names.{dex_server_namespace}
use idp_mgmt_operator.Helpers.Lookup.{get_apps_url}
use idp_mgmt_operator.AuthRealm.Connectors.{create_dex_connectors}

abbrev pub dex_server_name : String
dex_server_name = "dex-server"

-- The key of an object that is in no namespace.
abbrev pub cluster_key : String → ObjectKey
cluster_key name = record { name = name; namespace = "" }

abbrev pub new_dex_server : String → DexServer
new_dex_server namespace = record {
  meta = new_meta dex_server_name namespace;
  issuer = "";
  ingress_certificate = "";
  connectors = [];
  related_objects = [];
}

-- An object that is deleted if it is there: the reconciler then comes back.
unfoldable pub delete_found : {W A : Type 0} → Resource W A → Option A → Action W CtrlResult
delete_found resource none = pure done
delete_found resource (some o) = resource.delete o >> pure requeue_in_1s

unfoldable pub delete_if_found : {W A : Type 0} → Resource W A → ObjectKey → Action W CtrlResult
delete_if_found resource key =
    read (λ w. or_not_found (resource.get key w)) >>= delete_found resource

module _ {W : Type 0} (env : Env W) where
  -- The issuer: the host of the AuthRealm, or its sub-domain under the applications' URL.
  unfoldable pub issuer_of : AuthRealm → Action W String
  issuer_of auth_realm = elim (auth_realm.spec.host == "") [
    | false ↦ pure auth_realm.spec.host
    | true ↦ do
      (scheme, host) ← get_apps_url env false
      pure (scheme ++ ("://" ++ (auth_realm.spec.route_sub_domain ++ ("." ++ host))))
  ]

  -- The copy of a secret in the namespace of the dex server.
  unfoldable pub write_certificate : Secret → String → Option Secret → Action W Secret
  write_certificate cert_secret namespace none = env.secrets.create (record {
    meta = new_meta cert_secret.meta.name namespace;
    type = cert_secret.type;
    contents = cert_secret.contents;
  })
  write_certificate cert_secret namespace (some old) =
      env.secrets.update (record old { contents = cert_secret.contents; type = cert_secret.type })

  unfoldable pub copy_certificate : AuthRealm → DexServer → Action W String
  copy_certificate auth_realm dex_server = do
    cert_secret ← read (
        env.secrets.get (record {
          name = auth_realm.spec.certificates_secret_ref;
          namespace = auth_realm.meta.namespace;
        }))
    found ← read (λ w. or_not_found (
        env.secrets.get
          (record { name = cert_secret.meta.name; namespace = dex_server.meta.namespace }) w))
    copy ← write_certificate cert_secret dex_server.meta.namespace found
    pure copy.meta.name

  -- `updateDexServer`
  unfoldable pub update_dex_server : AuthRealm → DexServer → Action W DexServer
  update_dex_server auth_realm dex_server = do
    issuer ← issuer_of auth_realm
    certificate ← (elim (auth_realm.spec.certificates_secret_ref == "") [
      | true ↦ pure dex_server.ingress_certificate
      | false ↦ copy_certificate auth_realm dex_server
    ])
    cs ← lift (create_dex_connectors env.parse_ldap_url auth_realm issuer)
    pure (record dex_server { issuer = issuer; ingress_certificate = certificate; connectors = cs })

  unfoldable pub ensure_namespace : String → Option Bare → Action W (Unit {0})
  ensure_namespace name (some ns) = pure tt
  ensure_namespace name none =
      env.namespaces.create (record { meta = new_meta name "" }) >>= λ created. pure tt

  -- The end of `createDexServer`: an update, or a creation that names the AuthRealm in the status.
  unfoldable pub save_dex_server : AuthRealm → Option DexServer → Action W (Unit {0})
  save_dex_server auth_realm (some dex_server) = do
    updated ← update_dex_server auth_realm dex_server
    written ← env.dex_servers.update updated
    pure tt
  save_dex_server auth_realm none = do
    filled ← update_dex_server auth_realm (new_dex_server (dex_server_namespace auth_realm))
    created ← env.dex_servers.create filled
    written ← env.dex_servers.update_status (record created {
      related_objects =
          record {
            kind = "AuthRealm";
            name = auth_realm.meta.name;
            namespace = auth_realm.meta.namespace;
          }
          ∷ [];
    })
    pure tt

  -- `createDexServer`
  unfoldable pub create_dex_server : AuthRealm → Action W (Unit {0})
  create_dex_server auth_realm = do
    let namespace = dex_server_namespace auth_realm
    ns ← read (λ w. or_not_found (env.namespaces.get (cluster_key namespace) w))
    ensure_namespace namespace ns
    found ← read (λ w.
        or_not_found
          (env.dex_servers.get (record { name = dex_server_name; namespace = namespace }) w))
    save_dex_server auth_realm found

  -- The dex servers of the namespace: none to go on, else all are deleted.
  unfoldable pub delete_dex_servers : List DexServer → Action W CtrlResult
  delete_dex_servers [] = pure done
  delete_dex_servers (ds ∷ dss) = for_each (ds ∷ dss) env.dex_servers.delete >> pure requeue_in_1s

  -- What is deleted when there is no dex client.
  unfoldable pub delete_servers_and_namespace : String → Action W CtrlResult
  delete_servers_and_namespace namespace =
      read (env.dex_servers.list (in_namespace namespace)) >>= λ lds.
      unless_requeue (delete_dex_servers lds)
        (delete_if_found env.namespaces (cluster_key namespace))

  unfoldable pub after_dex_clients : String → List DexClient → Action W CtrlResult
  after_dex_clients namespace [] = delete_servers_and_namespace namespace
  after_dex_clients namespace (c ∷ cs) = pure requeue_in_1s

  -- `processDexServerDeletion`
  unfoldable pub process_dex_server_deletion : AuthRealm → Action W CtrlResult
  process_dex_server_deletion auth_realm =
      read (env.dex_clients.list (in_namespace (dex_server_namespace auth_realm)))
      >>= after_dex_clients (dex_server_namespace auth_realm)
