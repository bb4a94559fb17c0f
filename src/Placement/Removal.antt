-- ===== src/Placement/Removal.antt =====
-- What is gone when the configuration of a cluster has been deleted.
use idp_mgmt_operator.Base.{
  String, false, List, [], ◌∷◌, ◌≡◌, sym, ◌∙◌, All, arith, Bool-cases, ◌⊎◌, inl, inr,
}
use idp_mgmt_operator.Api.Action.{
  Result, ok, err, panic, CtrlResult, read, for_each, for_each_unless_requeue, ◌>>◌, >>=-eq-ok,
  unless_requeue-eq-ok,
}
use idp_mgmt_operator.Api.Meta.{ObjectKey, OwnerReference, key_of}
use idp_mgmt_operator.Api.Identity.{ClusterOAuth}
use idp_mgmt_operator.Api.Objects.{Placement, DexClient}
use idp_mgmt_operator.Api.Client.{Resource, Env, in_namespace}
use idp_mgmt_operator.Placement.Delete.{
  is_owned_by, to_be_deleted, delete_at, come_back_while_there, wait_for, awaited_key,
  client_secret_key, delete_cluster_oauths, delete_cluster_oauth_config, delete_dex_clients,
}

All-to_be_deleted :
    (P : ClusterOAuth → Type 0) (owners : List OwnerReference) (cs : List ClusterOAuth)
    → All P (to_be_deleted owners cs)
    → All (λ c. (is_owned_by owners c ≡ false) ⊎ P c) cs
unfolding to_be_deleted
All-to_be_deleted P owners [] ps = tt
All-to_be_deleted P owners (c ∷ cs) ps = elim (Bool-cases (is_owned_by owners c)) [
  | inl e ↦ let (p, ps') = rw e at ps in (inr p, All-to_be_deleted P owners cs ps')
  | inr e ↦ (inl e, All-to_be_deleted P owners cs (rw e at ps))
]

-- `Get` gives an error.
abbrev IsError : {A : Type 0} → Result A → Type 0
IsError (ok a) = ⊥
IsError (err e) = Unit
IsError panic = ⊥

abbrev pub IsGone : {W A : Type 0} → Resource W A → ObjectKey → W → Type 0
IsGone resource key w = IsError (resource.get key w)

come_back-quiet :
    {A : Type 0} (found : Result A) (r : CtrlResult)
    → come_back_while_there found ≡ ok r
    → r.requeue ≡ false
    → IsError found
come_back-quiet (ok o) r h quiet = absurd (ground arith)
come_back-quiet (err e) r h quiet = tt
come_back-quiet panic r h quiet = absurd (cc)

wait_for-quiet :
    {W A : Type 0} (resource : Resource W A) (key : ObjectKey) (w : W) {r : CtrlResult} {w' : W}
    → wait_for resource key w ≡ (ok r, w')
    → r.requeue ≡ false
    → (w' ≡ w) × IsGone resource key w
unfolding wait_for
wait_for-quiet resource key w {r} h quiet = (cc, come_back-quiet (resource.get key w) r (cc) quiet)

-- A loop that waits for one object after another.
waits-quiet :
    {W A B : Type 0} (resource : Resource W A) (key : B → ObjectKey) (xs : List B) (w : W)
    {r : CtrlResult} {w' : W}
    → for_each_unless_requeue xs (λ x. wait_for resource (key x)) w ≡ (ok r, w')
    → r.requeue ≡ false
    → (w' ≡ w) × All (λ x. IsGone resource (key x) w) xs
waits-quiet resource key [] w h quiet = (cc, tt)
waits-quiet resource key (x ∷ xs) w h quiet =
    let rest = for_each_unless_requeue xs (λ x. wait_for resource (key x)) in
    let (r₁, v, first, quiet₁, rest₁) =
      unless_requeue-eq-ok (wait_for resource (key x)) rest w h quiet in
    let (same, gone) = wait_for-quiet resource (key x) w first quiet₁ in
    let (same₁, all_gone) = waits-quiet resource key xs v rest₁ quiet in
    (same₁ ∙ same, (gone, rw same at all_gone))

module _ {W : Type 0} (env : Env W) where
  delete_cluster_oauths-quiet :
      (cluster_name : String) (cs : List ClusterOAuth) (w : W) {r : CtrlResult} {w' : W}
      → delete_cluster_oauths env cluster_name cs w ≡ (ok r, w')
      → r.requeue ≡ false
      → All (λ c. IsGone env.cluster_oauths (awaited_key cluster_name c) w') cs
  unfolding delete_cluster_oauths
  delete_cluster_oauths-quiet cluster_name cs w h quiet =
      let secrets = for_each cs (λ c. delete_at env.secrets (client_secret_key cluster_name c)) in
      let oauths = for_each cs (λ c. delete_at env.cluster_oauths (key_of c.meta)) in
      let waits =
        for_each_unless_requeue cs
          (λ c. wait_for env.cluster_oauths (awaited_key cluster_name c)) in
      let (u, v, first, rest) = >>=-eq-ok secrets (λ _. oauths >> waits) w h in
      let (u', v', second, rest') = >>=-eq-ok oauths (λ _. waits) v rest in
      let (same, gone) =
        waits-quiet env.cluster_oauths (λ c. awaited_key cluster_name c) cs v' rest' quiet in
      rw (sym same) at gone

  pub delete_dex_clients-quiet :
      (ds : List DexClient) (w : W) {r : CtrlResult} {w' : W}
      → delete_dex_clients env ds w ≡ (ok r, w')
      → r.requeue ≡ false
      → All (λ d. IsGone env.dex_clients (key_of d.meta) w') ds
  unfolding delete_dex_clients
  delete_dex_clients-quiet ds w h quiet =
      let deletions = for_each ds (λ d. delete_at env.dex_clients (key_of d.meta)) in
      let waits = for_each_unless_requeue ds (λ d. wait_for env.dex_clients (key_of d.meta)) in
      let (u, v, first, rest) = >>=-eq-ok deletions (λ _. waits) w h in
      let (same, gone) = waits-quiet env.dex_clients (λ d. key_of d.meta) ds v rest quiet in
      rw (sym same) at gone

  -- If `deleteClusterOAuthConfig` succeeds and does not ask to come back, then for each ClusterOAuth
  -- that was listed in the cluster's namespace at its start, either its strategy does not own the
  -- placement, or the ClusterOAuth named after its AuthRealm cannot be got at the end.
  pub owned_oauths_removed :
      (cluster_name : String) (placement : Placement) (w : W) {r : CtrlResult} {w' : W}
      → delete_cluster_oauth_config env cluster_name placement w ≡ (ok r, w')
      → r.requeue ≡ false
      → (cs : List ClusterOAuth) × (env.cluster_oauths.list (in_namespace cluster_name) w ≡ ok cs)
        × All
            (λ c.
              (is_owned_by placement.meta.owner_references c ≡ false)
              ⊎ IsGone env.cluster_oauths (awaited_key cluster_name c) w')
            cs
  unfolding delete_cluster_oauth_config
  owned_oauths_removed cluster_name placement w h quiet =
      let owners = placement.meta.owner_references in
      let (cs, v, listed, rest) =
        >>=-eq-ok (read (env.cluster_oauths.list (in_namespace cluster_name)))
          (λ cs. delete_cluster_oauths env cluster_name (to_be_deleted owners cs)) w h in
      (
        cs,
        cc,
        All-to_be_deleted _ owners cs
            (delete_cluster_oauths-quiet cluster_name (to_be_deleted owners cs) v rest quiet),
      )
