-- ===== src/Helpers/RandomBounds.antt =====
-- The letters of a random text.
use idp_mgmt_operator.Base.{
  ℕ, zero, suc, ◌%◌, ◌<◌, some, List, [], ◌∷◌, ◌≡◌, ◌≢◌, refl, ap, ◌∙◌, arith, length, get_elem?,
  inl, inr, All, Any, codes,
}
use idp_mgmt_operator.Api.Action.{ok}
use idp_mgmt_operator.Helpers.Random.{
  RandomType, number, alpha, alpha_num, password, other, dictionary, or_panic, pick_below, pick,
  push_letter, pick_all, random_string,
}

get_elem?-below {ℓ} :
    {A : Type ℓ} (xs : List A) (i : ℕ) → i < length xs → (x : A) × (get_elem? xs i ≡ some x)
get_elem?-below [] i h = absurd (omega arith)
get_elem?-below (x ∷ xs) zero h = (x, refl)
get_elem?-below (x ∷ xs) (suc i) h = get_elem?-below xs i (omega arith)

-- A letter of the dictionary.
abbrev pub IsLetter : List ℕ → ℕ → Type 0
IsLetter letters c = Any (λ l. l ≡ c) letters

get_elem?-IsLetter :
    (letters : List ℕ) (i c : ℕ) → get_elem? letters i ≡ some c → IsLetter letters c
get_elem?-IsLetter [] i c h = absurd (cc)
get_elem?-IsLetter (l ∷ ls) zero c h = inl (cc)
get_elem?-IsLetter (l ∷ ls) (suc i) c h = inr (get_elem?-IsLetter ls i c h)

pick-IsLetter :
    (letters : List ℕ) (v : ℕ)
    → length letters ≢ 0
    → (c : ℕ) × (pick letters v ≡ ok c) × IsLetter letters c
unfolding pick pick_below
pick-IsLetter [] v some_letter = absurd (some_letter refl)
pick-IsLetter (l ∷ letters) v some_letter =
    let (c, e) = get_elem?-below (l ∷ letters) (v % suc (length letters)) (omega arith) in
    (c, ap or_panic e, get_elem?-IsLetter (l ∷ letters) (v % suc (length letters)) c e)

pick_all-letters :
    (letters vs : List ℕ)
    → length letters ≢ 0
    → (cs : List ℕ) × (pick_all letters vs ≡ ok cs)
      × (length cs ≡ length vs)
      × All (IsLetter letters) cs
unfolding pick_all
pick_all-letters letters [] some_letter = ([], refl, refl, tt)
pick_all-letters letters (v ∷ vs) some_letter =
    let (c, e, letter) = pick-IsLetter letters v some_letter in
    let (cs, e', same, all_letters) = pick_all-letters letters vs some_letter in
    (
      c ∷ cs,
      ap (λ r. push_letter r (pick_all letters vs)) e ∙ ap (push_letter (ok c)) e',
      ap suc same,
      (letter, all_letters),
    )

-- One of the four types that the code names.
abbrev pub IsKnown : RandomType → Type 0
IsKnown (other t) = ⊥
IsKnown t = Unit

-- If the random source gives as many bytes as were asked for, then for each of the four types the
-- result is a text of this length over the type's dictionary: no byte makes the code panic.
pub random_string_lem :
    (n : ℕ) (t : RandomType) (bytes : List ℕ)
    → IsKnown t
    → length bytes ≡ n
    → (cs : List ℕ) × (random_string n t (some bytes) ≡ ok cs)
      × (length cs ≡ n)
      × All (IsLetter (codes (dictionary t))) cs
unfolding random_string dictionary
random_string_lem n t bytes known enough =
    let (cs, e, same, letters) = letters_of t known in (cs, e, same ∙ enough, letters)
  where
    letters_of :
        (t : RandomType)
        → IsKnown t
        → (cs : List ℕ) × (random_string n t (some bytes) ≡ ok cs)
          × (length cs ≡ length bytes)
          × All (IsLetter (codes (dictionary t))) cs
    letters_of number known =
        pick_all-letters (codes (dictionary number)) bytes (λ e. absurd (omega (arith, e)))
    letters_of alpha known =
        pick_all-letters (codes (dictionary alpha)) bytes (λ e. absurd (omega (arith, e)))
    letters_of alpha_num known =
        pick_all-letters (codes (dictionary alpha_num)) bytes (λ e. absurd (omega (arith, e)))
    letters_of password known =
        pick_all-letters (codes (dictionary password)) bytes (λ e. absurd (omega (arith, e)))
    letters_of (other t) known = absurd known
