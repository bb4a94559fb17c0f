-- ===== src/Webhook/Edits.antt =====
-- What it means that the webhook admits an update, and an IDPConfig.

use idp_mgmt_operator.Base.{[], ◌≡◌, ◌↔◌, refl, ◌∙◌, arith, eq_iff}
use idp_mgmt_operator.Api.Action.{ok}
use idp_mgmt_operator.Api.Meta.{ObjectMeta}
use idp_mgmt_operator.Api.Identity.{AuthRealm}
use idp_mgmt_operator.Helpers.Names.{dex_server_namespace}
use idp_mgmt_operator.Webhook.Validate.{
  update, AdmissionRequest, allow, Backend, validate_update, by_operation, decoded,
  validate_auth_realm, check_idp_configs, validate_idp_config,
}

-- An update that is admitted keeps the sub-domain, and one that keeps it is admitted.
pub update_allowed_iff :
    (backend : Backend) (request : AdmissionRequest) (new old : AuthRealm)
    → request.operation ≡ update
    → backend.unmarshal_auth_realm request.object ≡ ok new
    → backend.unmarshal_auth_realm request.old_object ≡ ok old
    → (validate_auth_realm backend request ≡ ok allow)
      ↔ (new.spec.route_sub_domain ≡ old.spec.route_sub_domain)
unfolding validate_auth_realm decoded by_operation validate_update
update_allowed_iff backend request new old o d e =
    ground (arith, eq_iff new.spec.route_sub_domain old.spec.route_sub_domain)

-- An AuthRealm as it is after updates that the webhook has admitted, one after another.
pub data Edited (backend : Backend) (first : AuthRealm) : AuthRealm → Type 0 where
  start : Edited backend first first
  edit :
      {old : AuthRealm} (new : AuthRealm) (request : AdmissionRequest)
      → Edited backend first old
      → request.operation ≡ update
      → backend.unmarshal_auth_realm request.object ≡ ok new
      → backend.unmarshal_auth_realm request.old_object ≡ ok old
      → validate_auth_realm backend request ≡ ok allow
      → Edited backend first new

-- Through any number of admitted updates an AuthRealm keeps its sub-domain, and with it the
-- namespace of its dex server.
pub sub_domain_stays :
    (backend : Backend) (first last : AuthRealm)
    → Edited backend first last
    → (last.spec.route_sub_domain ≡ first.spec.route_sub_domain)
      × (dex_server_namespace last ≡ dex_server_namespace first)
unfolding dex_server_namespace
sub_domain_stays backend first last edits = let e = sub_domain edits in (e, rw e)
  where
    sub_domain :
        {r : AuthRealm}
        → Edited backend first r
        → r.spec.route_sub_domain ≡ first.spec.route_sub_domain
    sub_domain start = refl
    sub_domain (edit {old} new request before o d d' allowed) =
        (update_allowed_iff backend request new old o d d').0 allowed ∙ sub_domain before

-- An IDPConfig is admitted exactly when its namespace is known to hold none.
pub idp_config_allowed_iff :
    (backend : Backend) (request : AdmissionRequest) (meta : ObjectMeta)
    → backend.unmarshal_idp_config request.object ≡ ok meta
    → (validate_idp_config backend request ≡ ok allow)
      ↔ (backend.list_idp_configs meta.namespace ≡ ok [])
unfolding validate_idp_config check_idp_configs
idp_config_allowed_iff backend request meta d = ground arith
