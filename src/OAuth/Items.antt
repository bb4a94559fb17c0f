-- ===== src/OAuth/Items.antt =====
-- The items of the configuration of a hypershift deployment, among which the OAuth stands: the
-- parts of controllers/clusteroauth/hypershift.go that search and change them.
use mathlib.Core.List as lists
use Prim.Native.Nat.{◌-◌}
use idp_mgmt_operator.Base.{
  ℕ, String, Bool, false, Option, none, some, List, [], ◌∷◌, ◌==◌, length, set, get_elem?,
  if◌then◌else◌,
}
use idp_mgmt_operator.Api.Action.{Result, ok, err, panic}
use idp_mgmt_operator.Api.Work.{Hub, Configuration, HypershiftDeployment}
use idp_mgmt_operator.Helpers.Status.{next_index}

-- The items without the one at `index`, whose place the last one takes. There is a last one
-- whenever the index has been found.
unfoldable pub drop_last {ℓ} : {A : Type ℓ} → List A → List A
drop_last [] = []
drop_last (x ∷ []) = []
drop_last (x ∷ y ∷ xs) = x ∷ drop_last (y ∷ xs)

unfoldable pub overwrite_with {ℓ} : {A : Type ℓ} → ℕ → Option A → List A → List A
overwrite_with index none items = items
overwrite_with index (some last) items = set items index last

unfoldable pub swap_out {ℓ} : {A : Type ℓ} → ℕ → List A → List A
swap_out index items = drop_last (overwrite_with index (get_elem? items (length items - 1)) items)

-- The items of `Unmanage`: the original takes the place of the OAuth, if there was one.
unfoldable pub restore_item : Option String → ℕ → List String → List String
restore_item none index items = swap_out index items
restore_item (some original) index items = set items index original

-- The items of `Push`: an index of -1 is `none`.
unfoldable pub put_item : Option ℕ → String → List String → List String
put_item none item items = lists.◌++◌ items (item ∷ [])
put_item (some index) item items = set items index item

-- The test of one item: whether it is an OAuth of that name.
unfoldable pub is_named : String → Result String → Bool
is_named name (ok n) = n == name
is_named name (err e) = false
is_named name panic = false

-- A configuration that is not there is made empty by the search.
unfoldable pub configuration_of : Option Configuration → Configuration
configuration_of none = record { items = []; secret_refs = [] }
configuration_of (some c) = c

abbrev pub items_of : HypershiftDeployment → List String
items_of hd = (configuration_of hd.configuration).items

-- `hd.Spec.HostedClusterSpec.Configuration.Items = items`
unfoldable pub with_items : List String → HypershiftDeployment → HypershiftDeployment
with_items items hd = record hd {
  configuration = some (record (configuration_of hd.configuration) { items = items });
}

abbrev pub item_at : List String → Option ℕ → Option String
item_at items none = none
item_at items (some index) = get_elem? items index

module _ {W : Type 0} (hub : Hub W) where
  -- The loop of `searchConfiguration`, for an OAuth
  unfoldable pub search_items : String → List String → Option ℕ
  search_items name [] = none
  search_items name (item ∷ items) =
      if is_named name (hub.unmarshal_oauth_name item)
      then some 0
      else next_index (search_items name items)

  -- `searchConfiguration(hd, "OAuth", name)`
  unfoldable pub search_configuration : HypershiftDeployment → String → Option ℕ
  search_configuration hd name = search_items name (items_of hd)

  -- The deployment with its configuration in place, the OAuth among its items.
  unfoldable pub with_oauth : String → HypershiftDeployment → HypershiftDeployment
  with_oauth data_ hd =
      with_items (put_item (search_configuration hd "cluster") data_ (items_of hd)) hd
