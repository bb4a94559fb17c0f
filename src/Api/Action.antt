-- ===== src/Api/Action.antt =====
-- What a Go function of a controller does: it reads and changes the world of API objects, and
-- returns a value or an error, or panics. `giterrors.WithStack` keeps an error's class and message,
-- so it has no trace here.
use idp_mgmt_operator.Base.{
  ℕ, String, Bool, true, false, Option, none, some, List, [], ◌∷◌, ◌≡◌, refl, Bool-cases, inl, inr,
  arith, if◌then◌else◌,
}

-- The classes of API errors that the code tells apart.
pub data ErrorKind : Type 0 where
  not_found already_exists conflict other : ErrorKind

pub record Error : Type 0 where
  pub kind : ErrorKind
  pub message : String

-- `errors.IsNotFound`, `errors.IsAlreadyExists`
abbrev pub kind_is_not_found : ErrorKind → Bool
kind_is_not_found not_found = true
kind_is_not_found _ = false

abbrev pub is_not_found : Error → Bool
is_not_found e = kind_is_not_found e.kind

abbrev pub kind_is_already_exists : ErrorKind → Bool
kind_is_already_exists already_exists = true
kind_is_already_exists _ = false

abbrev pub is_already_exists : Error → Bool
is_already_exists e = kind_is_already_exists e.kind

pub data Result (A : Type 0) : Type 0 where
  ok : A → Result A
  err : Error → Result A
  panic : Result A

-- The world comes back after an error too: what was written stays written.
abbrev pub Action : Type 0 → Type 0 → Type 0
Action W A = W → Result A × W

module _ {W A : Type 0} where
  abbrev pub pure : A → Action W A
  pure a w = (ok a, w)

  abbrev pub fail : Error → Action W A
  fail e w = (err e, w)

  abbrev pub crash : Action W A
  crash w = (panic, w)

  abbrev pub read : (W → Result A) → Action W A
  read f w = (f w, w)

  -- A pure computation that may fail.
  abbrev pub lift : Result A → Action W A
  lift r w = (r, w)

-- `fmt.Errorf`
abbrev pub errorf : String → Error
errorf text = record { kind = other; message = text }

abbrev pub continue : {W A B : Type 0} → (A → Action W B) → Result A × W → Result B × W
continue f (ok a, w) = f a w
continue f (err e, w) = (err e, w)
continue f (panic, w) = (panic, w)

infixl 5 ◌>>=◌ ◌>>◌
abbrev pub ◌>>=◌ : {W A B : Type 0} → Action W A → (A → Action W B) → Action W B
◌>>=◌ m f w = continue f (m w)

abbrev pub ◌>>◌ : {W A B : Type 0} → Action W A → Action W B → Action W B
m >> k = m >>= λ _. k

-- An error as a value, for code that looks at it.
pub data Attempt (A : Type 0) : Type 0 where
  got : A → Attempt A
  failed : Error → Attempt A

abbrev pub reify : {W A : Type 0} → Result A × W → Result (Attempt A) × W
reify (ok a, w) = (ok (got a), w)
reify (err e, w) = (ok (failed e), w)
reify (panic, w) = (panic, w)

abbrev pub attempt : {W A : Type 0} → Action W A → Action W (Attempt A)
attempt m w = reify (m w)

-- `client.Get`, where `IsNotFound` is handled by the caller and any other error is returned.
abbrev pub or_not_found : {A : Type 0} → Result A → Result (Option A)
or_not_found (ok a) = ok (some a)
or_not_found (err e) = if is_not_found e then ok none else err e
or_not_found panic = panic

-- `ctrl.Result`, with the delay in seconds.
pub record CtrlResult : Type 0 where
  pub requeue : Bool
  pub requeue_after : ℕ

-- `ctrl.Result{}`
abbrev pub done : CtrlResult
done = record { requeue = false; requeue_after = 0 }

-- `ctrl.Result{Requeue: true, RequeueAfter: 1 * time.Second}`
abbrev pub requeue_in_1s : CtrlResult
requeue_in_1s = record { requeue = true; requeue_after = 1 }

-- `if result, err := m; err != nil || result.Requeue { return result, err }`, then `k`
abbrev pub unless_requeue :
    {W : Type 0} → Action W CtrlResult → Action W CtrlResult → Action W CtrlResult
unless_requeue m k = m >>= λ r. if r.requeue then pure r else k

-- `for _, x := range xs { body }`, with a return of the first error
abbrev pub for_each : {W A : Type 0} → List A → (A → Action W (Unit {0})) → Action W (Unit {0})
for_each [] body = pure tt
for_each (x ∷ xs) body = body x >>= λ _. for_each xs body

-- The same over a body that may ask to requeue.
abbrev pub for_each_unless_requeue :
    {W A : Type 0} → List A → (A → Action W CtrlResult) → Action W CtrlResult
for_each_unless_requeue [] body = pure done
for_each_unless_requeue (x ∷ xs) body =
    let rest = for_each_unless_requeue xs body in unless_requeue (body x) rest

pub ok-injective : {A : Type 0} {a b : A} → ok a ≡ ok b → a ≡ b
ok-injective h = ground arith

-- Inversion of a bind that succeeds.
continue-eq-ok :
    {W A B : Type 0} (f : A → Action W B) (p : Result A × W) {b : B} {w' : W}
    → continue f p ≡ (ok b, w')
    → (a : A) × (v : W) × (p ≡ (ok a, v)) × (f a v ≡ (ok b, w'))
continue-eq-ok f (ok a, v) h = (a, v, refl, h)
continue-eq-ok f (err e, v) h = absurd (cc)
continue-eq-ok f (panic, v) h = absurd (cc)

pub >>=-eq-ok :
    {W A B : Type 0} (m : Action W A) (f : A → Action W B) (w : W) {b : B} {w' : W}
    → (m >>= f) w ≡ (ok b, w')
    → (a : A) × (v : W) × (m w ≡ (ok a, v)) × (f a v ≡ (ok b, w'))
>>=-eq-ok m f w h = continue-eq-ok f (m w) h

-- One bind after another.
pub continue_assoc :
    {W A B C : Type 0} (g : B → Action W C) (f : A → Action W B) (p : Result A × W)
    → continue g (continue f p) ≡ continue (λ a. f a >>= g) p
continue_assoc g f (ok a, w) = refl
continue_assoc g f (err e, w) = refl
continue_assoc g f (panic, w) = refl

requeue_returns :
    {W : Type 0} (k : Action W CtrlResult) (r' r : CtrlResult) (v w' : W)
    → r'.requeue ≡ true
    → (if r'.requeue then pure r' else k) v ≡ (ok r, w')
    → r.requeue ≡ false
    → ⊥
requeue_returns k r' r v w' e h quiet = ground arith

-- A step that lets the next one run has succeeded without asking to requeue.
pub unless_requeue-eq-ok :
    {W : Type 0} (m k : Action W CtrlResult) (w : W) {r : CtrlResult} {w' : W}
    → unless_requeue m k w ≡ (ok r, w')
    → r.requeue ≡ false
    → (r' : CtrlResult) × (v : W) × (m w ≡ (ok r', v)) × (r'.requeue ≡ false) × (k v ≡ (ok r, w'))
unless_requeue-eq-ok m k w {r} {w'} h quiet =
    let (r', v, first, rest) = >>=-eq-ok m (λ r'. if r'.requeue then pure r' else k) w h in
    elim (Bool-cases r'.requeue) [
      | inl e ↦ absurd (requeue_returns k r' r v w' e rest quiet)
      | inr e ↦ (r', v, first, e, rw e at rest)
    ]

abbrev pub non_nil : {A : Type 0} → Option A → Result A
non_nil none = panic
non_nil (some a) = ok a
