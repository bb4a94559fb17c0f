-- ===== src/Api/Meta.antt =====
-- The metadata of API objects, references and conditions (k8s.io/apimachinery, metav1), with the
-- fields that the controllers use.
use idp_mgmt_operator.Base.{
  ℕ, String, Bool, true, false, Option, none, some, List, [], ◌∷◌, ◌==◌, if◌then◌else◌,
}

-- A `map[string]string`
abbrev pub Labels : Type 0
Labels = List (String × String)

-- `v, ok := m[key]`
unfoldable pub lookup {ℓ} : {V : Type ℓ} → String → List (String × V) → Option V
lookup key [] = none
lookup key ((k, v) ∷ m) = if k == key then some v else lookup key m

-- `m[key]`, which is the empty text where the key is missing
unfoldable pub value_or_empty : Option String → String
value_or_empty none = ""
value_or_empty (some v) = v

pub record OwnerReference : Type 0 where
  pub kind : String
  pub name : String
  pub uid : String

pub record ObjectMeta : Type 0 where
  pub name : String
  pub namespace : String
  pub uid : String
  pub labels : Labels
  pub annotations : Labels
  pub finalizers : List String
  pub owner_references : List OwnerReference
  pub deletion_timestamp : Option ℕ

-- The metadata of a new object.
abbrev pub new_meta : String → String → ObjectMeta
new_meta name namespace = record {
  name = name;
  namespace = namespace;
  uid = "";
  labels = [];
  annotations = [];
  finalizers = [];
  owner_references = [];
  deletion_timestamp = none;
}

-- `client.ObjectKey`
pub record ObjectKey : Type 0 where
  pub name : String
  pub namespace : String

abbrev pub key_of : ObjectMeta → ObjectKey
key_of meta = record { name = meta.name; namespace = meta.namespace }

-- `DeletionTimestamp != nil`
abbrev pub is_set : Option ℕ → Bool
is_set none = false
is_set (some t) = true

abbrev pub is_deleting : ObjectMeta → Bool
is_deleting meta = is_set meta.deletion_timestamp

pub data ConditionStatus : Type 0 where
  condition_true condition_false condition_unknown : ConditionStatus

pub record Condition : Type 0 where
  pub type : String
  pub status : ConditionStatus
  pub reason : String
  pub message : String

-- `corev1.SecretReference`, `RelatedObjectReference`
pub record Reference : Type 0 where
  pub kind : String
  pub name : String
  pub namespace : String
