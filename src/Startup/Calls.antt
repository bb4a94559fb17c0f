-- ===== src/Startup/Calls.antt =====
-- A manager that notes each call and lets an answer be chosen for it: what the commands do is then
-- the list of the calls that they make.
use idp_mgmt_operator.Base.{String, List, [], ◌∷◌, ◌++◌, map, ◌≡◌, refl, ◌∙◌, sym}
use idp_mgmt_operator.Api.Action.{
  Action, continue, continue_assoc, Result, ok, err, panic, pure, for_each, ◌>>◌,
}
use idp_mgmt_operator.AuthRealm.Reconcile.{Installer}
use idp_mgmt_operator.Startup.Manager.{Package, Registration, Manager}

pub data Call : Type 0 where
  make_manager : Call
  get_crd : String → Call
  apply : List String → Call
  add : Package → Call
  complete : Registration → Call
  add_healthz : String → Call
  add_readyz : String → Call
  start : Call

then_same :
    {W A B : Type 0} (k k' : Action W B)
    → ((w : W) → k w ≡ k' w)
    → (p : Result A × W) → continue (λ _. k) p ≡ continue (λ _. k') p
then_same k k' same (ok a, w) = same w
then_same k k' same (err e, w) = refl
then_same k k' same (panic, w) = refl

last_returns : {W : Type 0} (p : Result (Unit {0}) × W) → continue (λ _. pure tt) p ≡ p
last_returns (ok u, w) = refl
last_returns (err e, w) = refl
last_returns (panic, w) = refl

module _ (answer : Call → Result (Unit {0})) where
  unfoldable pub note : Call → Action (List Call) (Unit {0})
  note c calls = (answer c, calls ++ c ∷ [])

  abbrev pub recorder : Manager (List Call)
  recorder = record {
    new_manager = λ o. note make_manager;
    get_crd = λ name. note (get_crd name);
    add_to_scheme = λ p. note (add p);
    complete = λ r. note (complete r);
    add_healthz_check = λ name. note (add_healthz name);
    add_readyz_check = λ name. note (add_readyz name);
    start = note start;
  }

  abbrev pub applier : Installer (List Call)
  applier = record {
    getenv = λ name. "";
    apply_directly = λ values files. note (apply files);
    apply_deployments = λ values files. note (apply files);
    apply_crds = λ files. note (apply files);
  }

  -- Calls in their order, up to the first that fails.
  abbrev pub perform : List Call → Action (List Call) (Unit {0})
  perform cs = for_each cs note

  -- What is done is to make these calls.
  pub record Performs (m : Action (List Call) (Unit {0})) (cs : List Call) : Type 0 where
    pub does : (calls : List Call) → m calls ≡ perform cs calls

  perform-append :
      (cs ds : List Call) (calls : List Call)
      → (perform cs >> perform ds) calls ≡ perform (cs ++ ds) calls
  perform-append [] ds calls = refl
  perform-append (c ∷ cs) ds calls =
      continue_assoc (λ _. perform ds) (λ _. perform cs) (note c calls)
      ∙ then_same (perform cs >> perform ds) (perform (cs ++ ds)) (perform-append cs ds)
          (note c calls)

  -- One part after another.
  pub in_order :
      (m k : Action (List Call) (Unit {0})) {cs ds : List Call}
      → Performs m cs
      → Performs k ds
      → Performs (m >> k) (cs ++ ds)
  in_order m k {cs} {ds} first second = record {
    does = λ calls.
        rw (first.does calls) (then_same k (perform ds) second.does (perform cs calls))
        ∙ perform-append cs ds calls;
  }

  pub one_call : (c : Call) → Performs (note c) (c ∷ [])
  one_call c = record { does = λ calls. sym (last_returns (note c calls)) }

  pub no_call : Performs (pure tt) []
  no_call = record { does = λ calls. refl }

  packages_in_order :
      (ps : List Package) (calls : List Call)
      → for_each ps (λ p. note (add p)) calls ≡ perform (map add ps) calls
  packages_in_order [] calls = refl
  packages_in_order (p ∷ ps) calls =
      then_same (for_each ps (λ p. note (add p))) (perform (map add ps)) (packages_in_order ps)
        (note (add p) calls)

  pub packages-Performs :
      (ps : List Package) → Performs (for_each ps (λ p. note (add p))) (map add ps)
  packages-Performs ps = record { does = packages_in_order ps }
