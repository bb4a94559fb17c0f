-- ===== src/Strategy/Owners.antt =====
-- `isLastOwnerReference` and `removeOwnerReference` of controllers/strategy/strategy_controller.go.
use idp_mgmt_operator.Base.{
  ℕ, suc, ◌-◌, String, Bool, false, Option, none, some, List, [], ◌∷◌, ◌==◌, length, get_elem?, set,
  if◌then◌else◌,
}
use idp_mgmt_operator.Api.Action.{Result, ok, panic}
use idp_mgmt_operator.Api.Meta.{OwnerReference}

-- `len(refs) <= 1 && refs[0].UID == strategy.UID`: `refs[0]` panics where there is none.
unfoldable pub is_last_owner_reference : List OwnerReference → String → Result Bool
is_last_owner_reference [] uid = panic
is_last_owner_reference (r ∷ []) uid = ok (r.uid == uid)
is_last_owner_reference (r ∷ s ∷ refs) uid = ok false

-- The loop over the references has no `break`: the last index that fits.
unfoldable pub last_index_of_uid : String → List OwnerReference → Option ℕ
last_index_of_uid uid [] = none
last_index_of_uid uid (r ∷ refs) = elim (last_index_of_uid uid refs) [
  | some i ↦ some (suc i)
  | none ↦ if r.uid == uid then some 0 else none
]

-- `refs[:len(refs)-1]`
unfoldable pub drop_last {ℓ} : {A : Type ℓ} → List A → List A
drop_last [] = []
drop_last (x ∷ []) = []
drop_last (x ∷ y ∷ xs) = x ∷ drop_last (y ∷ xs)

-- `refs[index] = refs[len(refs)-1]`, in the array that the placement's own slice shares.
unfoldable pub overwrite : List OwnerReference → ℕ → Option OwnerReference → List OwnerReference
overwrite refs index none = refs
overwrite refs index (some last) = set refs index last

-- `removeOwnerReference`, once the index is known: the references that the placement holds
-- afterwards, and those returned.
unfoldable pub remove_at :
    List OwnerReference → Option ℕ → List OwnerReference × List OwnerReference
unfolding drop_last overwrite
remove_at refs none = (refs, refs)
remove_at refs (some index) =
    let refs' = overwrite refs index (get_elem? refs (length refs - 1)) in (refs', drop_last refs')

unfoldable pub remove_owner_reference :
    List OwnerReference → String → List OwnerReference × List OwnerReference
unfolding last_index_of_uid remove_at
remove_owner_reference refs uid = remove_at refs (last_index_of_uid uid refs)
