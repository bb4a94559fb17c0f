-- ===== src/Tests/Installer.antt =====
-- The installer on a cluster that is the set of the kinds of which there are objects.
use idp_mgmt_operator.Base.{
  none, ℕ, String, Bool, true, false, Bool-cases, [], ◌∷◌, ◌≡◌, ◌≢◌, refl, ap, ◌⊎◌, inl, inr, All,
  nat_eq, arith, if◌then◌else◌,
}
use idp_mgmt_operator.Api.Action.{for_each, or_not_found, Result, ok, err, panic, errorf, pure}
use idp_mgmt_operator.Api.Meta.{ObjectKey, new_meta}
use idp_mgmt_operator.Api.Objects.{Bare}
use idp_mgmt_operator.Api.Client.{Resource}
use idp_mgmt_operator.Installer.Targets.{
  Kind, deployment, role_binding, cluster_role_binding, service_account, cluster_role, role,
  api_service, service, validating_webhook_configuration, Target, Pod, Cluster, first_image,
  is_coverage,
}
use idp_mgmt_operator.Installer.Remove.{
  delete_found, delete_target, remove_webhook, process_idp_config_deletion,
}
use idp_mgmt_operator.Installer.Complete.{operator_objects, webhook_objects, removal_is_complete}
use idp_mgmt_operator.Tests.Memory.{missing}

abbrev pub Kinds : Type 0
Kinds = Kind → Bool

abbrev tag : Kind → ℕ
tag deployment = 0
tag role_binding = 1
tag cluster_role_binding = 2
tag service_account = 3
tag cluster_role = 4
tag role = 5
tag api_service = 6
tag service = 7
tag validating_webhook_configuration = 8

abbrev without : Kind → Kinds → Kinds
without k kinds k' = if nat_eq (tag k) (tag k') then false else kinds k'

abbrev get_if : Bool → ObjectKey → Result Bare
get_if true key = ok (record { meta = new_meta key.name key.namespace })
get_if false key = err missing

abbrev of_kind : Kind → Resource Kinds Bare
of_kind k = record {
  get = λ key kinds. get_if (kinds k) key;
  list = λ options kinds. ok [];
  create = λ o kinds. (ok o, kinds);
  update = λ o kinds. (ok o, kinds);
  delete = λ o kinds. (ok tt, without k kinds);
  update_status = λ o kinds. (ok o, kinds);
  patch_status = λ base o kinds. (ok o, kinds);
}

abbrev pod : Pod
pod = record { meta = new_meta "installer" "ns"; images = "quay.io/installer:1.0" ∷ [] }

abbrev pub cluster : Cluster Kinds
cluster = record {
  idp_configs = of_kind deployment;
  objects = of_kind;
  get_pod = λ key kinds. ok pod;
  apply_directly = λ values files. pure tt;
  apply_deployments = λ values files. pure tt;
  apply_crds = λ files. pure tt;
  template_asset = λ values file. ok file;
  unmarshal = λ k b. ok (record { meta = new_meta b "" });
  getenv = λ name. "ns";
  add_to_scheme = ok tt;
  multicluster_hubs = λ kinds. err (errorf "no such resource");
  multicluster_engines = λ version kinds. ok 1;
  add_finalizer = λ xs x. x ∷ xs;
  remove_finalizer = λ xs x. [];
}

same_tag : (k : Kind) → nat_eq (tag k) (tag k) ≡ true
same_tag deployment = refl
same_tag role_binding = refl
same_tag cluster_role_binding = refl
same_tag service_account = refl
same_tag cluster_role = refl
same_tag role = refl
same_tag api_service = refl
same_tag service = refl
same_tag validating_webhook_configuration = refl

abbrev IsAbsent : Kinds → Target → Type 0
IsAbsent w t = or_not_found ((cluster.objects t.kind).get t.key w) ≡ ok none

deletion_law :
    (t : Target) (o : Bare) (w w' : Kinds)
    → (cluster.objects t.kind).get t.key w ≡ ok o
    → (cluster.objects t.kind).delete o w ≡ (ok tt, w')
    → IsAbsent w' t
deletion_law t o w w' h k =
    let same : without t.kind w ≡ w' = ap (λ (p : Result (Unit {0}) × Kinds). p.1) k in
    rw (← same, same_tag t.kind) refl

keeping_law :
    (t t' : Target) (o : Bare) (w w' : Kinds)
    → (cluster.objects t.kind).delete o w ≡ (ok tt, w')
    → IsAbsent w t'
    → IsAbsent w' t'
keeping_law t t' o w w' k absent =
    let same : without t.kind w ≡ w' = ap (λ (p : Result (Unit {0}) × Kinds). p.1) k in
    elim (Bool-cases (nat_eq (tag t.kind) (tag t'.kind))) [
      | inl e ↦ rw (← same, e) refl
      | inr e ↦ rw (← same, e) absent
    ]

abbrev pub everything : Kinds
everything k = true

abbrev pod_key : ObjectKey
pod_key = record { name = "installer"; namespace = "ns" }

abbrev removed : Kinds
removed = (process_idp_config_deletion cluster pod_key everything).1

removal_succeeds : process_idp_config_deletion cluster pod_key everything ≡ (ok tt, removed)
unfolding process_idp_config_deletion delete_target delete_found remove_webhook first_image
    is_coverage
removal_succeeds = refl

removal_is_complete_example :
    All (IsAbsent removed) (operator_objects "ns")
    × ((v : Kinds) × (p : Pod) × (image : String) × (for_each
            (operator_objects "ns")
            (delete_target cluster)
            everything
          ≡ (ok tt, v))
        × (cluster.get_pod pod_key v ≡ ok p)
        × (first_image p.images ≡ ok image)
        × ((is_coverage image ≡ true) ⊎ All (IsAbsent removed) (webhook_objects "ns")))
removal_is_complete_example =
    removal_is_complete cluster IsAbsent (λ t w h. h) deletion_law keeping_law pod_key everything
      removal_succeeds

hubs_do_not_panic : cluster.multicluster_hubs everything ≢ panic
hubs_do_not_panic = λ h. ground arith
