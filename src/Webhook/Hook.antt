-- ===== src/Webhook/Hook.antt =====
-- `ValidatingResource` and `Initialize` of webhook/authrealm_webhook.go: the clients of the hook.
use Prim.Native.String.{◌++◌}
use idp_mgmt_operator.Base.{String, Bool, true, false, Option, none, some, ◌≡◌, refl, ◌↔◌}
use idp_mgmt_operator.Api.Action.{Action, Result, ok, err, panic, lift, ◌>>=◌, ◌>>◌}
use idp_mgmt_operator.Webhook.Validate.{group_suffix}

-- `schema.GroupVersionResource`
pub record GroupVersionResource : Type 0 where
  pub group : String
  pub version : String
  pub resource : String

abbrev pub validating_resource : GroupVersionResource × String
validating_resource = (
  record { group = "admission." ++ group_suffix; version = "v1alpha1"; resource = "authrealms" },
  "authrealm",
)

-- The part of `rest.Config` that `Initialize` writes.
pub record ClientConfig : Type 0 where
  pub group : String
  pub version : String
  pub api_path : String

-- `kubernetes.NewForConfig`, `dynamic.NewForConfig` with `Resource`, and `idpclientset.NewForConfig`.
pub record Factory (Kube Dynamic Idp : Type 0) : Type 0 where
  pub kube_client : ClientConfig → Result Kube
  pub dynamic_client : ClientConfig → GroupVersionResource → Result Dynamic
  pub idp_client : ClientConfig → Result Idp

-- `AuthRealmAdmissionHook`, without its lock; a client that is not set is nil.
pub record Hook (Kube Dynamic Idp : Type 0) : Type 0 where
  pub client : Option Dynamic
  pub kube_client : Option Kube
  pub idp_client : Option Idp
  pub initialized : Bool

module _ {Kube Dynamic Idp : Type 0} where
  abbrev pub set :
      (Hook Kube Dynamic Idp → Hook Kube Dynamic Idp) → Action (Hook Kube Dynamic Idp) (Unit {0})
  set f hook = (ok tt, f hook)

  -- `Initialize`, of what the three constructors of clients return.
  unfoldable pub initialize_with :
      Result Kube → Result Dynamic → Result Idp → Action (Hook Kube Dynamic Idp) (Unit {0})
  initialize_with new_kube new_dynamic new_idp = do
    set (λ a. record a { initialized = true })
    kube ← lift new_kube
    set (λ a. record a { kube_client = some kube })
    dynamic ← lift new_dynamic
    set (λ a. record a { client = some dynamic })
    idp ← lift new_idp
    set (λ a. record a { idp_client = some idp })

  -- A hook that is as it was made.
  abbrev pub new_hook : Hook Kube Dynamic Idp
  new_hook = record { client = none; kube_client = none; idp_client = none; initialized = false }

  -- `Initialize` marks a new hook as initialized even if it fails, and succeeds exactly if it sets
  -- the client that `Validate` uses.
  pub initialize_iff :
      (k : Result Kube) (d : Result Dynamic) (i : Result Idp)
      → ((initialize_with k d i new_hook).1.initialized ≡ true)
        × (((initialize_with k d i new_hook).0 ≡ ok tt)
            ↔ ((c : Idp) × ((initialize_with k d i new_hook).1.idp_client ≡ some c)))
  unfolding initialize_with
  initialize_iff (ok k) (ok d) (ok i) = (refl, (λ h. (i, refl), λ h. refl))
  initialize_iff (ok k) (ok d) (err e) = (refl, (λ h. absurd (cc), λ (c, h). absurd (cc)))
  initialize_iff (ok k) (ok d) panic = (refl, (λ h. absurd (cc), λ (c, h). absurd (cc)))
  initialize_iff (ok k) (err e) i = (refl, (λ h. absurd (cc), λ (c, h). absurd (cc)))
  initialize_iff (ok k) panic i = (refl, (λ h. absurd (cc), λ (c, h). absurd (cc)))
  initialize_iff (err e) d i = (refl, (λ h. absurd (cc), λ (c, h). absurd (cc)))
  initialize_iff panic d i = (refl, (λ h. absurd (cc), λ (c, h). absurd (cc)))

-- `shallowClientConfigCopy`
abbrev pub client_config : ClientConfig
client_config = record { group = group_suffix; version = "v1alpha1"; api_path = "/apis" }

-- `Initialize`
unfoldable pub initialize :
    {Kube Dynamic Idp : Type 0}
    → Factory Kube Dynamic Idp
    → Action (Hook Kube Dynamic Idp) (Unit {0})
initialize factory =
    initialize_with (factory.kube_client client_config)
      (factory.dynamic_client client_config
        (record { group = group_suffix; version = "v1alpha1"; resource = "authrealms" }))
      (factory.idp_client client_config)
