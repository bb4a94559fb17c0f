-- ===== src/AuthRealm/Renamed.antt =====
-- What an object is after the templates have renamed it.
use idp_mgmt_operator.Base.{String, true, some, ◌≡◌, ◌==◌, ◌⊎◌}
use idp_mgmt_operator.Api.Action.{ok}
use idp_mgmt_operator.AuthRealm.Templates.{plain, fields, Fields, get, Yaml}

-- The metadata of the new object has the name, and the namespace if that is not empty; all else is as
-- it was.
pub record IsRenamed (new_name new_namespace : String) (before after : Fields) : Type 0 where
  pub name_is_set : get "name" after ≡ some (plain new_name)
  pub namespace_is_set :
      ((new_namespace == "" ≡ true) × (get "namespace" after ≡ get "namespace" before))
      ⊎ (get "namespace" after ≡ some (plain new_namespace))
  pub rest_is_kept :
      (key : String)
      → ("name" == key ≡ true) ⊎ ("namespace" == key ≡ true) ⊎ (get key after ≡ get key before)

-- The object that is written, and the one that is read.
pub record TextIsRenamed (yaml : Yaml) (file new_name new_namespace written : String) : Type 0 where
  pub source : String
  pub before : Fields
  pub metadata : Fields
  pub after : Fields
  pub metadata_after : Fields
  pub source_is_read : yaml.asset file ≡ ok source
  pub before_is_read : yaml.unmarshal source ≡ ok before
  pub has_metadata : get "metadata" before ≡ some (fields metadata)
  pub after_is_written : yaml.marshal after ≡ ok written
  pub keeps_metadata : get "metadata" after ≡ some (fields metadata_after)
  pub is_renamed : IsRenamed new_name new_namespace metadata metadata_after
  pub rest_is_kept : (key : String) → ("metadata" == key ≡ true) ⊎ (get key after ≡ get key before)
