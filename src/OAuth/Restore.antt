-- ===== src/OAuth/Restore.antt =====
-- The items of a hypershift deployment when the OAuth is put among them and taken out again.
use idp_mgmt_operator.Base.{
  ℕ, suc, String, Bool, true, false, Bool-cases, Option-cases, Option, none, some, List, [], ◌∷◌,
  ◌++◌, ◌≡◌, refl, ap, ◌∙◌, ◌⊎◌, inl, inr, All, length, arith, if◌then◌else◌, get_elem?,
}
use idp_mgmt_operator.Api.Action.{Result, ok, err, panic}
use idp_mgmt_operator.Api.Work.{Hub}
use idp_mgmt_operator.Helpers.Status.{next_index}
use idp_mgmt_operator.OAuth.Items.{is_named, search_items, put_item, restore_item, item_at}
use idp_mgmt_operator.OAuth.Swap.{swap_out-append}

put_item-next :
    (o : Option ℕ) (item x : String) (xs : List String)
    → put_item (next_index o) item (x ∷ xs) ≡ x ∷ put_item o item xs
unfolding put_item
put_item-next none item x xs = refl
put_item-next (some i) item x xs = refl

-- The value of a result, changed by `f`.
abbrev pub map_ok : {A B : Type 0} → (A → B) → Result A → Result B
map_ok f (ok a) = ok (f a)
map_ok f (err e) = err e
map_ok f panic = panic

module _ {W : Type 0} (hub : Hub W) where
  -- The item is an OAuth named "cluster".
  abbrev pub is_oauth : String → Bool
  is_oauth item = is_named "cluster" (hub.unmarshal_oauth_name item)

  -- What one `Push` makes of the items.
  abbrev pub pushed : String → List String → List String
  pushed item items = put_item (search_items hub "cluster" items) item items

  -- One `Push` after another, each with its own OAuth.
  abbrev pub pushed_all : List String → List String → List String
  pushed_all [] items = items
  pushed_all (item ∷ rest) items = pushed_all rest (pushed item items)

  -- What `Unmanage` makes of the items, given the original, if there is an OAuth among them.
  abbrev pub restored_at : Option String → Option ℕ → List String → List String
  restored_at original none items = items
  restored_at original (some i) items = restore_item original i items

  abbrev pub restored : Option String → List String → List String
  restored original items = restored_at original (search_items hub "cluster" items) items

  -- The first OAuth replaced by another item, and the same with an append where there is none.
  abbrev pub replaced : String → List String → List String
  replaced item [] = []
  replaced item (x ∷ xs) = if is_oauth x then item ∷ xs else x ∷ replaced item xs

  abbrev pub inserted : String → List String → List String
  inserted item [] = item ∷ []
  inserted item (x ∷ xs) = if is_oauth x then item ∷ xs else x ∷ inserted item xs

  pub pushed_lem : (item : String) (items : List String) → pushed item items ≡ inserted item items
  unfolding search_items put_item
  pushed_lem item [] = refl
  pushed_lem item (x ∷ xs) = elim (Bool-cases (is_oauth x)) [
    | inl e ↦ rw e refl
    | inr e ↦ rw e (
        put_item-next (search_items hub "cluster" xs) item x xs
        ∙ ap (λ (ys : List String). x ∷ ys) (pushed_lem item xs))
  ]

  restored-next :
      (b x : String) (xs : List String) (o : Option ℕ)
      → restored_at (some b) (next_index o) (x ∷ xs) ≡ x ∷ restored_at (some b) o xs
  unfolding restore_item
  restored-next b x xs none = refl
  restored-next b x xs (some i) = refl

  pub restored_lem : (b : String) (items : List String) → restored (some b) items ≡ replaced b items
  unfolding search_items restore_item
  restored_lem b [] = refl
  restored_lem b (x ∷ xs) = elim (Bool-cases (is_oauth x)) [
    | inl e ↦ rw e refl
    | inr e ↦ rw e (
        restored-next b x xs (search_items hub "cluster" xs)
        ∙ ap (λ (ys : List String). x ∷ ys) (restored_lem b xs))
  ]

  -- An OAuth that is put over another leaves no trace of it.
  inserted-inserted :
      (d e : String) (items : List String)
      → is_oauth e ≡ true
      → inserted d (inserted e items) ≡ inserted d items
  inserted-inserted d e [] h = rw h refl
  inserted-inserted d e (x ∷ xs) h = elim (Bool-cases (is_oauth x)) [
    | inl q ↦ rw (q, h) refl
    | inr q ↦ rw (q, q) (ap (λ (ys : List String). x ∷ ys) (inserted-inserted d e xs h))
  ]

  -- After one push or more the items are those of the last push alone.
  last_push :
      (d : String) (ds items : List String)
      → is_oauth d ≡ true
      → All (λ e. is_oauth e ≡ true) ds
      → (e : String) × (is_oauth e ≡ true) × (pushed_all (d ∷ ds) items ≡ inserted e items)
  last_push d [] items h hs = (d, h, pushed_lem d items)
  last_push d (e ∷ ds) items h (h', hs) =
      let (f, k, rest) = last_push e ds (pushed d items) h' hs in
      (f, k, rest ∙ (ap (λ ys. inserted f ys) (pushed_lem d items) ∙ inserted-inserted f d items h))

  search-none-cons :
      (x : String) (xs : List String)
      → search_items hub "cluster" (x ∷ xs) ≡ none
      → (is_oauth x ≡ false) × (search_items hub "cluster" xs ≡ none)
  unfolding search_items
  search-none-cons x xs h = elim (Bool-cases (is_oauth x)) [
    | inl q ↦ absurd (ground (arith))
    | inr q ↦ elim (Option-cases (search_items hub "cluster" xs)) [
      | inl e ↦ (q, e)
      | inr (i, e) ↦ let h' = rw (q, e) at h in absurd (ground (arith))
    ]
  ]

  inserted-none :
      (e : String) (items : List String)
      → search_items hub "cluster" items ≡ none
      → inserted e items ≡ items ++ e ∷ []
  inserted-none e [] h = refl
  inserted-none e (x ∷ xs) h =
      let (q, rest) = search-none-cons x xs h in
      rw q (ap (λ (ys : List String). x ∷ ys) (inserted-none e xs rest))

  search-append :
      (e : String) (items : List String)
      → search_items hub "cluster" items ≡ none
      → is_oauth e ≡ true
      → search_items hub "cluster" (items ++ e ∷ []) ≡ some (length items)
  unfolding search_items
  search-append e [] h k = rw k refl
  search-append e (x ∷ xs) h k =
      let (q, rest) = search-none-cons x xs h in rw (q, search-append e xs rest k) refl

  replaced-inserted :
      (b e : String) (items : List String)
      → is_oauth e ≡ true
      → (search_items hub "cluster" items ≡ none)
        ⊎ (replaced b (inserted e items) ≡ replaced b items)
  unfolding search_items
  replaced-inserted b e [] k = inl refl
  replaced-inserted b e (x ∷ xs) k = elim (Bool-cases (is_oauth x)) [
    | inl q ↦ inr (rw (q, k) refl)
    | inr q ↦ elim (replaced-inserted b e xs k) [
      | inl h ↦ inl (rw (q, h) refl)
      | inr h ↦ inr (rw (q, q) (ap (λ (ys : List String). x ∷ ys) h))
    ]
  ]

  -- What `Save` keeps of the items: the OAuth as JSON, if there is one.
  abbrev pub as_json : Option String → Result (Option String)
  as_json none = ok none
  as_json (some raw) = map_ok some (hub.yaml_to_json raw)

  -- The items with the original in the place of the OAuth.
  abbrev pub original_in_place : Option String → List String → List String
  original_in_place none items = items
  original_in_place (some b) items = replaced b items

  json-some : (r : Result String) → map_ok some r ≡ ok none → ⊥
  json-some (ok b) h = ground arith
  json-some (err e) h = ground arith
  json-some panic h = ground arith

  -- What has been found is there.
  pub search-in_range :
      (items : List String) (i : ℕ)
      → search_items hub "cluster" items ≡ some i
      → (x : String) × (get_elem? items i ≡ some x)
  unfolding search_items
  search-in_range [] i h = absurd (ground arith)
  search-in_range (x ∷ xs) i h = elim (Bool-cases (is_oauth x)) [
    | inl q ↦
        let first : some 0 ≡ some i = rw q at h in
        let zero_ : 0 ≡ i = ground arith in (x, rw (← zero_) refl)
    | inr q ↦ elim (Option-cases (search_items hub "cluster" xs)) [
      | inl e ↦ let h' = rw (q, e) at h in absurd (ground arith)
      | inr (j, e) ↦
          let next : some (suc j) ≡ some i = rw (q, e) at h in
          let suc_ : suc j ≡ i = ground arith in
          let (y, there) = search-in_range xs j e in (y, rw (← suc_) there)
    ]
  ]

  saved-none :
      (items : List String)
      → as_json (item_at items (search_items hub "cluster" items)) ≡ ok none
      → search_items hub "cluster" items ≡ none
  saved-none items saved = elim (Option-cases (search_items hub "cluster" items)) [
    | inl e ↦ e
    | inr (i, e) ↦
        let (x, there) = search-in_range items i e in
        let json = rw (e, there) at saved in absurd (json-some (hub.yaml_to_json x) json)
  ]

  restored-last :
      (original : Option String) (e : String) (items : List String)
      → is_oauth e ≡ true
      → as_json (item_at items (search_items hub "cluster" items)) ≡ ok original
      → restored original (inserted e items) ≡ original_in_place original items
  unfolding restore_item
  restored-last none e items k saved =
      let missing = saved-none items saved in
      rw (inserted-none e items missing, search-append e items missing k) (swap_out-append items e)
  restored-last (some b) e items k saved = elim (replaced-inserted b e items k) [
    | inr h ↦ restored_lem b (inserted e items) ∙ h
    | inl missing ↦ let none_saved = rw missing at saved in absurd (ground arith)
  ]

  -- One or more pushes are undone by the restoration of what was saved.
  pub pushes-restored :
      (original : Option String) (d : String) (ds items : List String)
      → is_oauth d ≡ true
      → All (λ e. is_oauth e ≡ true) ds
      → as_json (item_at items (search_items hub "cluster" items)) ≡ ok original
      → restored original (pushed_all (d ∷ ds) items) ≡ original_in_place original items
  pushes-restored original d ds items h hs saved =
      let (e, k, last) = last_push d ds items h hs in
      rw last (restored-last original e items k saved)

  search-inserted :
      (e : String) (items : List String)
      → is_oauth e ≡ true
      → (i : ℕ) × (search_items hub "cluster" (inserted e items) ≡ some i)
  unfolding search_items
  search-inserted e [] k = (0, rw k refl)
  search-inserted e (x ∷ xs) k = elim (Bool-cases (is_oauth x)) [
    | inl q ↦ (0, rw (q, k) refl)
    | inr q ↦ let (i, there) = search-inserted e xs k in (suc i, rw (q, q, there) refl)
  ]

  -- After a push there is an OAuth to be found.
  pub search-pushed_all :
      (d : String) (ds items : List String)
      → is_oauth d ≡ true
      → All (λ e. is_oauth e ≡ true) ds
      → (i : ℕ) × (search_items hub "cluster" (pushed_all (d ∷ ds) items) ≡ some i)
  search-pushed_all d ds items h hs =
      let (e, k, last) = last_push d ds items h hs in rw last (search-inserted e items k)

  -- Where nothing has been pushed, the original takes the place of the OAuth that was found.
  pub not_pushed :
      (original : Option String) (i : ℕ) (items : List String)
      → search_items hub "cluster" items ≡ some i
      → as_json (item_at items (search_items hub "cluster" items)) ≡ ok original
      → restored original items ≡ original_in_place original items
  not_pushed none i items found saved =
      let missing = saved-none items saved in absurd (ground arith)
  not_pushed (some b) i items found saved = restored_lem b items
