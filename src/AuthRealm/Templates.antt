-- ===== src/AuthRealm/Templates.antt =====
-- controllers/authrealm/templatefunction.go: the function of the templates that renames a YAML object.
use idp_mgmt_operator.Base.{String, Bool, Option, none, some, ◌==◌, if◌then◌else◌}
use idp_mgmt_operator.Api.Action.{Result, ok, err, panic}

mutual
  -- The values of an unstructured object; a number is held by its text.
  pub data Value : Type 0 where
    null : Value
    boolean : Bool → Value
    number : String → Value
    plain : String → Value
    sequence : ValueList → Value
    fields : Fields → Value

  pub data ValueList : Type 0 where
    end : ValueList
    next : Value → ValueList → ValueList

  -- `map[string]interface{}`: a key has the value of its first entry, and the order of the entries is
  -- of no account.
  pub data Fields : Type 0 where
    empty : Fields
    field : String → Value → Fields → Fields

-- The value at a key of a map.
unfoldable pub get : String → Fields → Option Value
get key empty = none
get key (field k v rest) = if k == key then some v else get key rest

-- An assignment to a key of a map.
unfoldable pub set : String → Value → Fields → Fields
set key value empty = field key value empty
set key value (field k v rest) =
    if k == key then field k value rest else field k v (set key value rest)

-- `x.(map[string]interface{})`, which panics for anything but a map.
unfoldable pub as_map : Option Value → Result Fields
as_map (some (fields m)) = ok m
as_map (some null) = panic
as_map (some (boolean b)) = panic
as_map (some (number s)) = panic
as_map (some (plain s)) = panic
as_map (some (sequence xs)) = panic
as_map none = panic

unfoldable pub and_then : {A B : Type 0} → Result A → (A → Result B) → Result B
and_then (ok a) f = f a
and_then (err e) f = err e
and_then panic f = panic

-- The assignments to the metadata.
unfoldable pub rename : String → String → Fields → Fields
rename new_name new_namespace metadata =
    let named = set "name" (plain new_name) metadata in
    if new_namespace == "" then named else set "namespace" (plain new_namespace) named

-- The embedded files and the YAML package.
pub record Yaml : Type 0 where
  pub asset : String → Result String
  pub unmarshal : String → Result Fields
  pub marshal : Fields → Result String

module _ (yaml : Yaml) where
  -- The object of a file with its new metadata; the metadata is changed in place.
  unfoldable pub renamed : String → String → Fields → Result Fields
  renamed new_name new_namespace obj =
      and_then (as_map (get "metadata" obj))
        λ metadata. ok (set "metadata" (fields (rename new_name new_namespace metadata)) obj)

  -- `replaceObjectNameNamespace`
  unfoldable pub replace_object_name_namespace : String → String → String → Result String
  replace_object_name_namespace file new_name new_namespace = and_then (yaml.asset file) λ b.
      and_then (yaml.unmarshal b) λ obj. and_then (renamed new_name new_namespace obj) yaml.marshal
