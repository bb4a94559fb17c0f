-- ===== src/Placement/Keeping.antt =====
-- What the deletion of the ClusterOAuths of a cluster leaves as it is.
use idp_mgmt_operator.Base.{
  Bool, true, false, Option, none, some, List, [], ◌∷◌, ◌≡◌, refl, ◌∙◌, String, if◌then◌else◌,
}
use idp_mgmt_operator.Api.Action.{
  Action, Result, ok, err, panic, CtrlResult, done, pure, read, or_not_found, for_each,
  for_each_unless_requeue, unless_requeue, continue, ◌>>=◌, ◌>>◌,
}
use idp_mgmt_operator.Api.Meta.{ObjectKey, key_of}
use idp_mgmt_operator.Api.Identity.{ClusterOAuth}
use idp_mgmt_operator.Api.Objects.{Placement, Secret}
use idp_mgmt_operator.Api.Client.{Env, Resource, in_namespace}
use idp_mgmt_operator.Placement.Delete.{
  client_secret_key, awaited_key, to_be_deleted, delete_at, wait_for, delete_cluster_oauths,
  delete_cluster_oauth_config,
}

module _ {W X : Type 0} (view : W → X) where
  -- A step after which the world shows the same, whether it succeeds or not.
  pub record Keeps {A : Type 0} (m : Action W A) : Type 0 where
    pub keeps : (w : W) → view (m w).1 ≡ view w

  continue-Keeps :
      {A B : Type 0} (k : A → Action W B)
      → ((a : A) → Keeps (k a))
      → (p : Result A × W) → view (continue k p).1 ≡ view p.1
  continue-Keeps k ks (ok a, w) = (ks a).keeps w
  continue-Keeps k ks (err e, w) = refl
  continue-Keeps k ks (panic, w) = refl

  pub bind-Keeps :
      {A B : Type 0} (m : Action W A) (k : A → Action W B)
      → Keeps m
      → ((a : A) → Keeps (k a))
      → Keeps (m >>= k)
  bind-Keeps m k first ks = record { keeps = λ w. continue-Keeps k ks (m w) ∙ first.keeps w }

  pub pure-Keeps : {A : Type 0} (a : A) → Keeps (pure a)
  pure-Keeps a = record { keeps = λ w. refl }

  pub read-Keeps : {A : Type 0} (f : W → Result A) → Keeps (read f)
  read-Keeps f = record { keeps = λ w. refl }

  pub for_each-Keeps :
      {A : Type 0} (f : A → Action W (Unit {0}))
      → ((x : A) → Keeps (f x))
      → (xs : List A) → Keeps (for_each xs f)
  for_each-Keeps f fs [] = pure-Keeps tt
  for_each-Keeps f fs (x ∷ xs) =
      bind-Keeps (f x) (λ _. for_each xs f) (fs x) (λ _. for_each-Keeps f fs xs)

  either-Keeps :
      {A : Type 0} (b : Bool) (m k : Action W A) → Keeps m → Keeps k → Keeps (if b then m else k)
  either-Keeps true m k ms ks = ms
  either-Keeps false m k ms ks = ks

  pub unless_requeue-Keeps :
      (m k : Action W CtrlResult) → Keeps m → Keeps k → Keeps (unless_requeue m k)
  unless_requeue-Keeps m k ms ks =
      bind-Keeps m (λ r. if r.requeue then pure r else k) ms
        (λ r. either-Keeps r.requeue (pure r) k (pure-Keeps r) ks)

  pub for_each_unless_requeue-Keeps :
      {A : Type 0} (f : A → Action W CtrlResult)
      → ((x : A) → Keeps (f x))
      → (xs : List A) → Keeps (for_each_unless_requeue xs f)
  for_each_unless_requeue-Keeps f fs [] = pure-Keeps done
  for_each_unless_requeue-Keeps f fs (x ∷ xs) =
      unless_requeue-Keeps (f x) (for_each_unless_requeue xs f) (fs x)
        (for_each_unless_requeue-Keeps f fs xs)

  delete_found-Keeps :
      {A : Type 0} (resource : Resource W A)
      → ((o : A) (w : W) → view (resource.delete o w).1 ≡ view w)
      → (found : Option A)
      → Keeps (
          (elim found as (λ _. Action W (Unit {0})) [
            | none ↦ pure tt
            | some o ↦ resource.delete o
          ]))
  delete_found-Keeps resource kept none = pure-Keeps tt
  delete_found-Keeps resource kept (some o) = record { keeps = kept o }

  delete_at-Keeps :
      {A : Type 0} (resource : Resource W A)
      → ((o : A) (w : W) → view (resource.delete o w).1 ≡ view w)
      → (key : ObjectKey) → Keeps (delete_at resource key)
  unfolding delete_at
  delete_at-Keeps resource kept key =
      bind-Keeps (read (λ w. or_not_found (resource.get key w))) _ (read-Keeps _)
        (delete_found-Keeps resource kept)

  wait_for-Keeps :
      {A : Type 0} (resource : Resource W A) (key : ObjectKey) → Keeps (wait_for resource key)
  unfolding wait_for
  wait_for-Keeps resource key = record { keeps = λ w. refl }

module _ {W X : Type 0} (view : W → X) (env : Env W)
    -- what is shown does not change by the deletion of secrets and ClusterOAuths
    (secrets_apart : (o : Secret) (w : W) → view (env.secrets.delete o w).1 ≡ view w)
    (oauths_apart : (o : ClusterOAuth) (w : W)
      → view (env.cluster_oauths.delete o w).1 ≡ view w) where
  oauths-Keeps :
      (cluster_name : String) (cs : List ClusterOAuth)
      → Keeps view (delete_cluster_oauths env cluster_name cs)
  unfolding delete_cluster_oauths
  oauths-Keeps cluster_name cs =
      let drop_secret =
        λ (c : ClusterOAuth). delete_at env.secrets (client_secret_key cluster_name c) in
      let drop_oauth = λ (c : ClusterOAuth). delete_at env.cluster_oauths (key_of c.meta) in
      let await = λ (c : ClusterOAuth). wait_for env.cluster_oauths (awaited_key cluster_name c) in
      bind-Keeps view (for_each cs drop_secret)
        (λ _. for_each cs drop_oauth >> for_each_unless_requeue cs await)
        (for_each-Keeps view drop_secret
          (λ c. delete_at-Keeps view env.secrets secrets_apart (client_secret_key cluster_name c))
          cs)
        (λ _.
          bind-Keeps view (for_each cs drop_oauth) (λ _. for_each_unless_requeue cs await)
            (for_each-Keeps view drop_oauth
              (λ c. delete_at-Keeps view env.cluster_oauths oauths_apart (key_of c.meta)) cs)
            (λ _.
              for_each_unless_requeue-Keeps view await
                (λ c. wait_for-Keeps view env.cluster_oauths (awaited_key cluster_name c)) cs))

  pub config-Keeps :
      (cluster_name : String) (placement : Placement)
      → Keeps view (delete_cluster_oauth_config env cluster_name placement)
  unfolding delete_cluster_oauth_config
  config-Keeps cluster_name placement =
      bind-Keeps view (read (env.cluster_oauths.list (in_namespace cluster_name)))
        (λ cs.
          delete_cluster_oauths env cluster_name (to_be_deleted placement.meta.owner_references cs))
        (read-Keeps view (env.cluster_oauths.list (in_namespace cluster_name)))
        (λ cs. oauths-Keeps cluster_name (to_be_deleted placement.meta.owner_references cs))
