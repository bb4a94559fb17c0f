-- ===== src/OAuth/Swap.antt =====
-- To remove an item of a list by putting the last item in its place.
use mathlib.Core.List.{Perm}
use mathlib.Core.List.Perm
use idp_mgmt_operator.Base.{
  ℕ, zero, suc, ◌-◌, some, List, [], ◌∷◌, ◌++◌, ◌≡◌, refl, ap, ◌∙◌, length, length-append, set,
  get_elem?, arith,
}
use idp_mgmt_operator.OAuth.Items.{swap_out, drop_last, overwrite_with}
use idp_mgmt_operator.OAuth.Report.{remove_at}

module _ {ℓ} {A : Type ℓ} where
  get_elem-append : (xs : List A) (x : A) → get_elem? (xs ++ x ∷ []) (length xs) ≡ some x
  get_elem-append [] x = refl
  get_elem-append (y ∷ xs) x = get_elem-append xs x

  set-append : (xs : List A) (x y : A) → set (xs ++ x ∷ []) (length xs) y ≡ xs ++ y ∷ []
  set-append [] x y = refl
  set-append (z ∷ xs) x y = ap (λ (zs : List A). z ∷ zs) (set-append xs x y)

  drop_last-cons :
      (x y : A) (xs : List A) → drop_last (x ∷ xs ++ y ∷ []) ≡ x ∷ drop_last (xs ++ y ∷ [])
  unfolding drop_last
  drop_last-cons x y [] = refl
  drop_last-cons x y (z ∷ xs) = refl

  drop_last-one : (x : A) → drop_last (x ∷ []) ≡ []
  unfolding drop_last
  drop_last-one x = refl

  drop_last-append : (xs : List A) (x : A) → drop_last (xs ++ x ∷ []) ≡ xs
  drop_last-append [] x = drop_last-one x
  drop_last-append (y ∷ xs) x =
      drop_last-cons y x xs ∙ ap (λ (zs : List A). y ∷ zs) (drop_last-append xs x)

  -- To swap out the last item is to drop it.
  pub swap_out-append : (xs : List A) (x : A) → swap_out (length xs) (xs ++ x ∷ []) ≡ xs
  unfolding swap_out overwrite_with
  swap_out-append xs x =
      let last : length (xs ++ x ∷ []) - 1 ≡ length xs = omega (arith, length-append xs (x ∷ [])) in
      rw (last, get_elem-append xs x, set-append xs x x) (drop_last-append xs x)

  -- The last item before the rest of them.
  last-Perm :
      (x l : A) (xs : List A)
      → get_elem? (x ∷ xs) (length xs) ≡ some l
      → Perm (l ∷ drop_last (x ∷ xs)) (x ∷ xs)
  unfolding drop_last
  last-Perm x l [] h = let same : x ≡ l = ground arith in rw same (Perm.refl _)
  last-Perm x l (y ∷ xs) h =
      Perm.trans (Perm.swap x l (drop_last (y ∷ xs))) (Perm.cons x (last-Perm y l xs h))

  last-exists : (x : A) (xs : List A) → (l : A) × (get_elem? (x ∷ xs) (length xs) ≡ some l)
  last-exists x [] = (x, refl)
  last-exists x (y ∷ xs) = last-exists y xs

  swap_out-zero : (x : A) (xs : List A) → Perm (swap_out 0 (x ∷ xs)) xs
  unfolding swap_out overwrite_with drop_last
  swap_out-zero x [] = Perm.refl []
  swap_out-zero x (y ∷ xs) =
      let (l, e) = last-exists y xs in
      let at_end : suc (suc (length xs)) - 1 ≡ suc (length xs) = omega arith in
      rw (at_end, e) (last-Perm y l xs e)

  swap_out-suc :
      (i : ℕ) (x y : A) (xs : List A) → swap_out (suc i) (x ∷ y ∷ xs) ≡ x ∷ swap_out i (y ∷ xs)
  unfolding swap_out overwrite_with drop_last
  swap_out-suc zero x y xs =
      let (l, e) = last-exists y xs in
      let at_end : suc (suc (length xs)) - 1 ≡ suc (length xs) = omega arith in
      let at_end' : suc (length xs) - 1 ≡ length xs = omega arith in rw (at_end, at_end', e) refl
  swap_out-suc (suc i) x y xs =
      let (l, e) = last-exists y xs in
      let at_end : suc (suc (length xs)) - 1 ≡ suc (length xs) = omega arith in
      let at_end' : suc (length xs) - 1 ≡ length xs = omega arith in rw (at_end, at_end', e) refl

  -- To swap out an item is to remove it, up to the order of the others.
  pub swap_out-Perm :
      (i : ℕ) (xs : List A) {x : A}
      → get_elem? xs i ≡ some x
      → Perm (swap_out i xs) (remove_at i xs)
  unfolding remove_at
  swap_out-Perm i [] h = absurd (ground arith)
  swap_out-Perm zero (x ∷ xs) h = swap_out-zero x xs
  swap_out-Perm (suc i) (x ∷ []) h = absurd (ground arith)
  swap_out-Perm (suc i) (x ∷ y ∷ xs) h =
      rw (swap_out-suc i x y xs) (Perm.cons x (swap_out-Perm i (y ∷ xs) h))
