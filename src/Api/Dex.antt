-- ===== src/Api/Dex.antt =====
-- The objects of auth.identitatem.io: the dex server with its connectors. A connector has the
-- configuration of its own type; in Go those of the other types are zero.
use idp_mgmt_operator.Base.{String, Bool, List}
use idp_mgmt_operator.Api.Meta.{ObjectMeta, Reference}

pub record Org : Type 0 where
  pub name : String
  pub teams : List String

pub record GitHubConfig : Type 0 where
  pub client_id : String
  pub client_secret_ref : Reference
  pub redirect_uri : String
  pub load_all_groups : Bool
  pub orgs : List Org

pub record UserSearch : Type 0 where
  pub base_dn : String
  pub filter : String
  pub scope : String
  pub username : String
  pub id_attr : String
  pub email_attr : String
  pub name_attr : String

pub record LdapConfig : Type 0 where
  pub host : String
  pub bind_dn : String
  pub bind_pw_ref : Reference
  pub insecure_no_ssl : Bool
  pub start_tls : Bool
  pub root_ca_ref : Reference
  pub user_search : UserSearch
  pub group_search : String

pub record ClaimMapping : Type 0 where
  pub preferred_username : String
  pub name : String
  pub email : String

pub record OidcConfig : Type 0 where
  pub issuer : String
  pub client_id : String
  pub client_secret_ref : Reference
  pub redirect_uri : String
  pub claim_mapping : ClaimMapping

pub data ConnectorConfig : Type 0 where
  github : GitHubConfig → ConnectorConfig
  ldap : LdapConfig → ConnectorConfig
  oidc : OidcConfig → ConnectorConfig

-- `ConnectorSpec`: name and id are the same text.
pub record Connector : Type 0 where
  pub name : String
  pub config : ConnectorConfig

pub record DexServer : Type 0 where
  pub meta : ObjectMeta
  pub issuer : String
  pub ingress_certificate : String
  pub connectors : List Connector
  pub related_objects : List Reference
