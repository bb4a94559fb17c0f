-- ===== src/Tests/Templates.antt =====
-- A role that the templates rename.
use idp_mgmt_operator.Base.{String, Bool, false, ◌&&◌, ◌==◌, if◌then◌else◌}
use idp_mgmt_operator.Api.Action.{ok, err, errorf}
use idp_mgmt_operator.AuthRealm.Templates.{plain, fields, Fields, empty, field, Yaml}

abbrev role : String → Fields
role name = field "metadata" (fields (field "name" (plain name) empty)) empty

-- Whether the object is the renamed role.
abbrev is_new : Fields → Bool
is_new (field k (fields (field k' (plain v) empty)) empty) =
    k == "metadata" && (k' == "name" && v == "new")
is_new _ = false

-- A YAML package that knows the role under two names.
abbrev yaml : Yaml
yaml = record {
  asset = λ file. ok "old text";
  unmarshal = λ s. if s == "new text" then ok (role "new") else ok (role "old");
  marshal = λ o. if is_new o then ok "new text" else err (errorf "not the role");
}
