-- ===== src/Strategy/Release.antt =====
-- What the owner references of a placement are after strategies have released it.
use idp_mgmt_operator.Base.{
  ℕ, zero, suc, ◌-◌, ◌≤◌, String, false, Option, none, some, List, [], ◌∷◌, ◌++◌, ◌≡◌, refl, ap,
  ◌∙◌, arith, length, length-append, get_elem?, set,
}
use text.Mathlib.TextPositions.{eq_refl}
use idp_mgmt_operator.Api.Action.{ok, done, pure, ◌>>=◌}
use idp_mgmt_operator.Api.Meta.{OwnerReference}
use idp_mgmt_operator.Api.Identity.{Strategy}
use idp_mgmt_operator.Api.Objects.{Placement}
use idp_mgmt_operator.Api.Client.{Env}
use idp_mgmt_operator.Strategy.Owners.{
  is_last_owner_reference, last_index_of_uid, overwrite, remove_at, remove_owner_reference,
}
use idp_mgmt_operator.Strategy.Reconcile.{release_placement, set_owner_references}

length-set {ℓ} : {A : Type ℓ} (xs : List A) (i : ℕ) (v : A) → length (set xs i v) ≡ length xs
length-set [] i v = refl
length-set (x ∷ xs) zero v = refl
length-set (x ∷ xs) (suc i) v = ap suc (length-set xs i v)

length-overwrite :
    (refs : List OwnerReference) (i : ℕ) (last : Option OwnerReference)
    → length (overwrite refs i last) ≡ length refs
unfolding overwrite
length-overwrite refs i none = refl
length-overwrite refs i (some last) = length-set refs i last

length-remove_at :
    (refs : List OwnerReference) (index : Option ℕ) → length (remove_at refs index).0 ≡ length refs
unfolding remove_at
length-remove_at refs none = refl
length-remove_at refs (some i) = length-overwrite refs i (get_elem? refs (length refs - 1))

length-remove_owner_reference :
    (refs : List OwnerReference) (uid : String)
    → length (remove_owner_reference refs uid).0 ≡ length refs
unfolding remove_owner_reference
length-remove_owner_reference refs uid = length-remove_at refs (last_index_of_uid uid refs)

get_elem?-length {ℓ} :
    {A : Type ℓ} (xs : List A) (x : A) → get_elem? (xs ++ x ∷ []) (length xs) ≡ some x
get_elem?-length [] x = refl
get_elem?-length (y ∷ xs) x = get_elem?-length xs x

set-length {ℓ} :
    {A : Type ℓ} (xs : List A) (x : A) → set (xs ++ x ∷ []) (length xs) x ≡ xs ++ x ∷ []
set-length [] x = refl
set-length (y ∷ xs) x = ap (λ l. y ∷ l) (set-length xs x)

last_index-append :
    (refs : List OwnerReference) (r : OwnerReference)
    → last_index_of_uid r.uid (refs ++ r ∷ []) ≡ some (length refs)
unfolding last_index_of_uid
last_index-append [] r = rw (eq_refl r.uid)
last_index-append (s ∷ refs) r = rw (last_index-append refs r)

is_last-of_two :
    (refs : List OwnerReference) (uid : String)
    → 2 ≤ length refs
    → is_last_owner_reference refs uid ≡ ok false
unfolding is_last_owner_reference
is_last-of_two [] uid h = absurd (omega arith)
is_last-of_two (r ∷ []) uid h = absurd (omega arith)
is_last-of_two (r ∷ s ∷ refs) uid h = refl

release-not_last :
    {W : Type 0} (env : Env W) (strategy : Strategy) (pl : Placement) (w : W)
    → is_last_owner_reference pl.meta.owner_references strategy.meta.uid ≡ ok false
    → release_placement env strategy pl w
      ≡ (env.placements.update (
              set_owner_references
                (remove_owner_reference pl.meta.owner_references strategy.meta.uid).0
                pl)
            >>= λ updated. pure done)
          w
unfolding release_placement
release-not_last env strategy pl w last = rw last refl

-- One strategy after another releases the placement that the one before has written: each release
-- does nothing but one write.
pub data Releases {W : Type 0} (env : Env W) : List Strategy → Placement → Placement → Type 0 where
  no_more : {pl : Placement} → Releases env [] pl pl
  release :
      {strategy : Strategy} {rest : List Strategy} {pl pl' pl'' : Placement}
      → ((w : W)
          → release_placement env strategy pl w
            ≡ (env.placements.update pl' >>= λ updated. pure done) w)
      → Releases env rest pl' pl''
      → Releases env (strategy ∷ rest) pl pl''

-- Whichever strategies release a placement with two or more owner references, and in whichever
-- order, `releasePlacement` does nothing but write it back each time, in the end with as many owner
-- references as it had, so that no strategy is ever found to be its last owner.
pub shared_placement_never_last :
    {W : Type 0} (env : Env W) (strategies : List Strategy) (pl : Placement) (uid : String)
    → 2 ≤ length pl.meta.owner_references
    → (pl' : Placement) × Releases env strategies pl pl'
      × (length pl'.meta.owner_references ≡ length pl.meta.owner_references)
      × (is_last_owner_reference pl'.meta.owner_references uid ≡ ok false)
shared_placement_never_last env [] pl uid h =
    (pl, Releases.no_more, refl, is_last-of_two pl.meta.owner_references uid h)
shared_placement_never_last env (strategy ∷ rest) pl uid h =
    let refs = pl.meta.owner_references in
    let own = strategy.meta.uid in
    let written = set_owner_references (remove_owner_reference refs own).0 pl in
    let kept = length-remove_owner_reference refs own in
    let (pl', releases, same, never) =
      shared_placement_never_last env rest written uid (omega (arith, kept)) in
    (
      pl',
      Releases.release (λ w. release-not_last env strategy pl w (is_last-of_two refs own h))
          releases,
      same ∙ kept,
      never,
    )

remove_last_owner :
    (refs : List OwnerReference) (r : OwnerReference)
    → (remove_owner_reference (refs ++ r ∷ []) r.uid).0 ≡ refs ++ r ∷ []
unfolding remove_owner_reference
remove_last_owner refs r =
    let e : length (refs ++ r ∷ []) - 1 ≡ length refs =
      omega (arith, length-append refs (r ∷ [])) in
    rw (last_index-append refs r, e, get_elem?-length refs r) (set-length refs r)

release_of_not_last :
    {W : Type 0} (env : Env W) (strategy : Strategy) (pl : Placement) (w : W)
    → is_last_owner_reference pl.meta.owner_references strategy.meta.uid ≡ ok false
    → (remove_owner_reference pl.meta.owner_references strategy.meta.uid).0
      ≡ pl.meta.owner_references
    → release_placement env strategy pl w ≡ (env.placements.update pl >>= λ updated. pure done) w
release_of_not_last env strategy pl w last same =
    release-not_last env strategy pl w last ∙ rw same refl

-- If the strategy's own reference stands last, behind that of another owner, then releasing the
-- placement writes it back with the owner references that it had, that of the strategy among them,
-- and does nothing else.
pub release_keeps_last_owner :
    {W : Type 0} (env : Env W) (strategy : Strategy) (pl : Placement) (first : OwnerReference)
    (others : List OwnerReference) (own : OwnerReference) (w : W)
    → own.uid ≡ strategy.meta.uid
    → pl.meta.owner_references ≡ (first ∷ others) ++ own ∷ []
    → release_placement env strategy pl w ≡ (env.placements.update pl >>= λ updated. pure done) w
release_keeps_last_owner env strategy pl first others own w e h =
    release_of_not_last env strategy pl w
      (is_last-of_two pl.meta.owner_references strategy.meta.uid
        (omega (arith, ap length h, length-append (first ∷ others) (own ∷ []))))
      (rw (h, ← e) (remove_last_owner (first ∷ others) own))
