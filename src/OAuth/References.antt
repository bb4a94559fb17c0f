-- ===== src/OAuth/References.antt =====
-- The secrets that a hypershift deployment refers to after `Push`.
use text.Mathlib.TextPositions.{eq_refl}
use idp_mgmt_operator.Base.{
  String, Bool, true, false, Bool-cases, Option, none, some, List, [], ◌∷◌, ◌++◌, ◌≡◌, refl, ap,
  ◌==◌, ◌⊎◌, inl, inr, All, arith, if◌then◌else◌,
}
use idp_mgmt_operator.Api.Action.{
  Result, ok, attempt, lift, non_nil, pure, read, ◌>>=◌, ◌>>◌, >>=-eq-ok,
}
use idp_mgmt_operator.Api.Meta.{ObjectKey, key_of, is_deleting}
use idp_mgmt_operator.Api.Identity.{ClusterOAuth, IdentityProvider}
use idp_mgmt_operator.Api.Objects.{Secret}
use idp_mgmt_operator.Api.Client.{Env}
use idp_mgmt_operator.Helpers.Names.{dashed}
use idp_mgmt_operator.OAuth.Aggregate.{secret_for}
use idp_mgmt_operator.OAuth.Hypershift.{
  is_listed, update_existing, copy_secret, push_secrets, push_all_secrets,
}

listed-append_left :
    (name x : String) (refs : List String)
    → is_listed name refs ≡ true
    → is_listed name (refs ++ x ∷ []) ≡ true
unfolding is_listed
listed-append_left name x [] h = absurd (ground arith)
listed-append_left name x (r ∷ refs) h = elim (Bool-cases (r == name)) [
  | inl e ↦ rw e refl
  | inr e ↦ rw e (listed-append_left name x refs (rw e at h))
]

listed-append_last :
    (name : String) (refs : List String) → is_listed name (refs ++ name ∷ []) ≡ true
unfolding is_listed
listed-append_last name [] = ground (arith, eq_refl name)
listed-append_last name (r ∷ refs) = ground (arith, listed-append_last name refs)

-- One more reference keeps the others, and is itself there.
keeps-listed :
    (n name : String) (found : Bool) (refs : List String)
    → is_listed n refs ≡ true
    → is_listed n (if found then refs else refs ++ name ∷ []) ≡ true
keeps-listed n name true refs h = h
keeps-listed n name false refs h = listed-append_left n name refs h

adds-listed :
    (name : String) (refs : List String)
    → is_listed name (if is_listed name refs then refs else refs ++ name ∷ []) ≡ true
adds-listed name refs = elim (Bool-cases (is_listed name refs)) [
  | inl e ↦ rw (e, e) refl
  | inr e ↦ rw e (listed-append_last name refs)
]

-- The name of the copy of a ClusterOAuth's secret is listed, unless the ClusterOAuth is being
-- deleted or has no providers.
abbrev pub IsReferenced : List String → ClusterOAuth → Type 0
IsReferenced refs c =
    (is_deleting c.meta ≡ true)
    ⊎ (c.oauth ≡ some [])
    ⊎ (is_listed (dashed c.meta.namespace c.meta.name) refs ≡ true)

module _ {W : Type 0} (env : Env W)
    (got_by_name : (key : ObjectKey) (w : W) (s : Secret)
      → env.secrets.get key w ≡ ok s
      → s.meta.name ≡ key.name) where
  copy_secret-name :
      (namespace : String) (c : ClusterOAuth) (w : W) {name : String} {w' : W}
      → copy_secret env namespace c w ≡ (ok name, w')
      → name ≡ dashed c.meta.namespace c.meta.name
  unfolding copy_secret
  copy_secret-name namespace c w {name} h =
      let copy : Secret → Secret = secret_for namespace c.meta.namespace in
      let (s, v, found, rest) =
        >>=-eq-ok (read (env.secrets.get (key_of c.meta)))
          (λ s. attempt (env.secrets.create (copy s)) >>= λ a.
            update_existing env (copy s) a >> pure (copy s).meta.name)
          w h in
      let (a, v', second, rest') =
        >>=-eq-ok (attempt (env.secrets.create (copy s)))
          (λ a. update_existing env (copy s) a >> pure (copy s).meta.name) v rest in
      let (u, v'', third, last) =
        >>=-eq-ok (update_existing env (copy s) a) (λ _. pure (copy s).meta.name) v' rest' in
      let named : dashed c.meta.namespace s.meta.name ≡ name = cc in
      let same = got_by_name (key_of c.meta) w s (ap (λ (p : Result Secret × W). p.0) found) in
      rw (← named, same) refl

  push_secrets-keeps :
      (namespace : String) (c : ClusterOAuth) (found : Bool) (refs : List String)
      (idps : List IdentityProvider) (n : String) (w : W) {refs' : List String} {w' : W}
      → push_secrets env namespace c found refs idps w ≡ (ok refs', w')
      → is_listed n refs ≡ true
      → is_listed n refs' ≡ true
  unfolding push_secrets
  push_secrets-keeps namespace c found refs [] n w {refs'} h k =
      let same : refs ≡ refs' = cc in rw same at k
  push_secrets-keeps namespace c found refs (idp ∷ idps) n w h k =
      let (name, v, first, rest) =
        >>=-eq-ok (copy_secret env namespace c)
          (λ name.
            push_secrets env namespace c found (if found then refs else refs ++ name ∷ []) idps)
          w h in
      push_secrets-keeps namespace c found (if found then refs else refs ++ name ∷ []) idps n v rest
        (keeps-listed n name found refs k)

  push_secrets-adds :
      (namespace : String) (c : ClusterOAuth) (refs : List String) (idps : List IdentityProvider)
      (w : W) {refs' : List String} {w' : W}
      → push_secrets env namespace c
          (is_listed (dashed c.meta.namespace c.meta.name) refs)
          refs
          idps
          w
        ≡ (ok refs', w')
      → (idps ≡ []) ⊎ (is_listed (dashed c.meta.namespace c.meta.name) refs' ≡ true)
  unfolding push_secrets
  push_secrets-adds namespace c refs [] w h = inl refl
  push_secrets-adds namespace c refs (idp ∷ idps) w h =
      let own = dashed c.meta.namespace c.meta.name in
      let found = is_listed own refs in
      let (name, v, first, rest) =
        >>=-eq-ok (copy_secret env namespace c)
          (λ name.
            push_secrets env namespace c found (if found then refs else refs ++ name ∷ []) idps)
          w h in
      let same = copy_secret-name namespace c w first in
      let there : is_listed own (if found then refs else refs ++ name ∷ []) ≡ true =
        rw same (adds-listed own refs) in
      inr (
        push_secrets-keeps namespace c found (if found then refs else refs ++ name ∷ []) idps own v
          rest there)

  has_oauth :
      (o : Option (List IdentityProvider)) (w : W) {idps : List IdentityProvider} {v : W}
      → lift (non_nil o) w ≡ (ok idps, v)
      → (o ≡ some idps) × (w ≡ v)
  has_oauth none w h = absurd (ground arith)
  has_oauth (some idps) w h = (cc, cc)

  -- What the loop does for a ClusterOAuth that is not being deleted.
  one_pushed :
      (namespace : String) (refs : List String) (c : ClusterOAuth) (cs : List ClusterOAuth) (w : W)
      {refs' : List String} {w' : W}
      → (lift (non_nil c.oauth)
            >>= push_secrets env namespace c
                (is_listed (dashed c.meta.namespace c.meta.name) refs)
                refs
            >>= λ refs₁. push_all_secrets env namespace refs₁ cs)
          w
        ≡ (ok refs', w')
      → (idps : List IdentityProvider) × (c.oauth ≡ some idps)
        × (refs₁ : List String) × (v : W) × (push_secrets env namespace c
              (is_listed (dashed c.meta.namespace c.meta.name) refs)
              refs
              idps
              w
            ≡ (ok refs₁, v))
        × (push_all_secrets env namespace refs₁ cs v ≡ (ok refs', w'))
  one_pushed namespace refs c cs w h =
      let pushes =
        push_secrets env namespace c (is_listed (dashed c.meta.namespace c.meta.name) refs) refs in
      let (refs₁, v, first, rest) =
        >>=-eq-ok (lift (non_nil c.oauth) >>= pushes)
          (λ refs₁. push_all_secrets env namespace refs₁ cs) w h in
      let (idps, u, got_idps, pushed) = >>=-eq-ok (lift (non_nil c.oauth)) pushes w first in
      let (has, same) = has_oauth c.oauth w got_idps in
      (idps, has, refs₁, v, rw (← same) at pushed, rest)

  pushes-keep :
      (namespace : String) (refs : List String) (cs : List ClusterOAuth) (n : String) (w : W)
      {refs' : List String} {w' : W}
      → push_all_secrets env namespace refs cs w ≡ (ok refs', w')
      → is_listed n refs ≡ true
      → is_listed n refs' ≡ true
  unfolding push_all_secrets
  pushes-keep namespace refs [] n w {refs'} h k = let same : refs ≡ refs' = cc in rw same at k
  pushes-keep namespace refs (c ∷ cs) n w h k = elim (Bool-cases (is_deleting c.meta)) [
    | inl e ↦ pushes-keep namespace refs cs n w (rw e at h) k
    | inr e ↦
        let own = dashed c.meta.namespace c.meta.name in
        let (idps, has, refs₁, v, first, rest) = one_pushed namespace refs c cs w (rw e at h) in
        pushes-keep namespace refs₁ cs n v rest
          (push_secrets-keeps namespace c (is_listed own refs) refs idps n w first k)
  ]

  pushes-add :
      (namespace : String) (refs : List String) (cs : List ClusterOAuth) (w : W)
      {refs' : List String} {w' : W}
      → push_all_secrets env namespace refs cs w ≡ (ok refs', w')
      → All (IsReferenced refs') cs
  unfolding push_all_secrets
  pushes-add namespace refs [] w h = tt
  pushes-add namespace refs (c ∷ cs) w {refs'} h = elim (Bool-cases (is_deleting c.meta)) [
    | inl e ↦ (inl e, pushes-add namespace refs cs w (rw e at h))
    | inr e ↦
        let own = dashed c.meta.namespace c.meta.name in
        let (idps, has, refs₁, v, first, rest) = one_pushed namespace refs c cs w (rw e at h) in
        (
          inr (elim (push_secrets-adds namespace c refs idps w first) [
            | inl nothing ↦ inl (rw (← nothing) has)
            | inr there ↦ inr (pushes-keep namespace refs₁ cs own v rest there)
          ]),
          pushes-add namespace refs₁ cs v rest,
        )
  ]

  -- If the loop of `Push` over the ClusterOAuths of a hosted cluster succeeds, and a secret is always
  -- got under its own name, then a name that the deployment referred to before is still among its
  -- references, and so is the name of the copied secret of each ClusterOAuth that is not being
  -- deleted and has a provider.
  pub references_complete :
      (namespace n : String) (refs : List String) (cs : List ClusterOAuth) (w : W)
      {refs' : List String} {w' : W}
      → push_all_secrets env namespace refs cs w ≡ (ok refs', w')
      → ((is_listed n refs ≡ false) ⊎ (is_listed n refs' ≡ true)) × All (IsReferenced refs') cs
  references_complete namespace n refs cs w h = (
    elim (Bool-cases (is_listed n refs)) [
      | inl e ↦ inr (pushes-keep namespace refs cs n w h e)
      | inr e ↦ inl e
    ],
    pushes-add namespace refs cs w h,
  )
