-- ===== src/OAuth/Others.antt =====
-- The items of a hypershift deployment that are not its OAuth, through `Push` and `Unmanage`.
use mathlib.Core.List.{Perm}
use mathlib.Core.List.Perm
use idp_mgmt_operator.Base.{
  String, false, ◌⊎◌, Option, none, some, List, [], ◌∷◌, ◌≡◌, if◌then◌else◌,
}
use idp_mgmt_operator.Api.Work.{Hub}
use idp_mgmt_operator.OAuth.Items.{search_items, item_at}
use idp_mgmt_operator.OAuth.Restore.{is_oauth}

-- What another function sees of the items: the OAuth, and the items beside it.
abbrev pub current : {W : Type 0} → Hub W → List String → Option String
current hub items = item_at items (search_items hub "cluster" items)

module _ {W : Type 0} (hub : Hub W) where
  abbrev pub others : List String → List String
  others [] = []
  others (x ∷ xs) = if is_oauth hub x then xs else x ∷ others xs

  -- What is left of the items when the original, as it was kept, is put back: the original and the
  -- other items, if it is an OAuth named "cluster"; the other items, in some order, if there was
  -- none.
  abbrev pub PutBack : Option String → List String → List String → Type 0
  PutBack (some b) before after =
      (is_oauth hub b ≡ false) ⊎ ((current hub after ≡ some b) × (others after ≡ others before))
  PutBack none before after = Perm after (others before)
