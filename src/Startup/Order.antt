-- ===== src/Startup/Order.antt =====
-- What the manager does when it starts, whatever answers it gets.
use idp_mgmt_operator.Base.{
  Bool, true, false, ◌&&◌, inl, inr, Bool-cases, List, [], ◌∷◌, ◌++◌, ◌≡◌, refl, sym, ap, ◌∙◌,
  arith,
}
use mathlib.Core.List.{append-nil, append_assoc}
use idp_mgmt_operator.Api.Action.{Result, ok, err, panic, is_not_found, ◌>>=◌, attempt, continue}
use idp_mgmt_operator.Startup.Manager.{Package, Controller}
use idp_mgmt_operator.Startup.Commands.{
  Flags, deployments_crd, is_installed, add_controllers, run_manager,
}
use idp_mgmt_operator.Startup.Calls.{
  Call, make_manager, get_crd, apply, add, complete, add_healthz, add_readyz, start, note, recorder,
  applier, perform,
}
use idp_mgmt_operator.Startup.Plan.{plan, packages_known, are_in_order, plan_is_in_order}
use idp_mgmt_operator.Startup.Parts.{add_controllers-Performs, asked, after_asking}

both_true : (a b : Bool) → a && b ≡ true → (a ≡ true) × (b ≡ true)
both_true true b h = (refl, h)
both_true false b h = absurd (ground arith)

module _ (answer : Call → Result (Unit {0})) where
  -- The calls that are made: those up to the first that fails.
  abbrev made_after : Result (Unit {0}) → List Call → List Call
  made_after (ok u) cs = cs
  made_after (err e) cs = []
  made_after panic cs = []

  abbrev made : List Call → List Call
  made [] = []
  made (c ∷ cs) = c ∷ made_after (answer c) (made cs)

  nothing_after : (r : Result (Unit {0})) → made_after r [] ≡ []
  nothing_after (ok u) = refl
  nothing_after (err e) = refl
  nothing_after panic = refl

  after_call :
      (r : Result (Unit {0})) (cs calls : List Call)
      → ((calls : List Call) → (perform answer cs calls).1 ≡ calls ++ made cs)
      → (continue (λ _. perform answer cs) (r, calls)).1 ≡ calls ++ made_after r (made cs)
  after_call (ok u) cs calls h = h calls
  after_call (err e) cs calls h = sym (append-nil calls)
  after_call panic cs calls h = sym (append-nil calls)

  perform-made : (cs calls : List Call) → (perform answer cs calls).1 ≡ calls ++ made cs
  unfolding note
  perform-made [] calls = sym (append-nil calls)
  perform-made (c ∷ cs) calls =
      after_call (answer c) cs (calls ++ c ∷ []) (perform-made cs)
      ∙ append_assoc calls (c ∷ []) (made_after (answer c) (made cs))

  cut_in_order :
      (r : Result (Unit {0})) (known : List Package) (added : List Controller) (cs : List Call)
      → are_in_order known added cs ≡ true
      → are_in_order known added (made_after r cs) ≡ true
  unfolding are_in_order
  cut_in_order (ok u) known added cs h = h
  cut_in_order (err e) known added cs h = refl
  cut_in_order panic known added cs h = refl

  made_in_order :
      (known : List Package) (added : List Controller) (cs : List Call)
      → are_in_order known added cs ≡ true
      → are_in_order known added (made cs) ≡ true
  unfolding are_in_order
  made_in_order known added [] h = h
  made_in_order known added (add p ∷ cs) h =
      cut_in_order (answer (add p)) _ _ _ (made_in_order (p ∷ known) added cs h)
  made_in_order known added (complete r ∷ cs) h =
      let (watched, rest) =
        both_true (packages_known known r) (are_in_order known (r.controller ∷ added) cs) h in
      rw watched (
        cut_in_order (answer (complete r)) _ _ _
          (made_in_order known (r.controller ∷ added) cs rest))
  made_in_order known added (start ∷ []) h = rw (nothing_after (answer start)) h
  made_in_order known added (start ∷ c ∷ cs) h = absurd (ground arith)
  made_in_order known added (make_manager ∷ cs) h =
      cut_in_order (answer make_manager) _ _ _ (made_in_order known added cs h)
  made_in_order known added (get_crd name ∷ cs) h =
      cut_in_order (answer (get_crd name)) _ _ _ (made_in_order known added cs h)
  made_in_order known added (apply files ∷ cs) h =
      cut_in_order (answer (apply files)) _ _ _ (made_in_order known added cs h)
  made_in_order known added (add_healthz name ∷ cs) h =
      cut_in_order (answer (add_healthz name)) _ _ _ (made_in_order known added cs h)
  made_in_order known added (add_readyz name ∷ cs) h =
      cut_in_order (answer (add_readyz name)) _ _ _ (made_in_order known added cs h)

  -- The calls of the plan, after others that are in order.
  plan-made :
      (installed : Bool) (calls : List Call)
      → (add_controllers (recorder answer) (applier answer) installed calls).1
        ≡ calls ++ made (plan installed)
  plan-made installed calls =
      ap (λ (p : Result (Unit {0}) × List Call). p.1)
        ((add_controllers-Performs answer installed).does calls)
      ∙ perform-made (plan installed) calls

  asked_first :
      (cs : List Call)
      → are_in_order [] [] cs ≡ true
      → are_in_order [] [] (asked answer ++ cs) ≡ true
  unfolding are_in_order
  asked_first cs h = h

  plan_in_order :
      (installed : Bool)
      → are_in_order [] []
          ((add_controllers (recorder answer) (applier answer) installed (asked answer)).1)
        ≡ true
  plan_in_order installed = rw (plan-made installed (asked answer)) (
      asked_first (made (plan installed))
        (made_in_order [] [] (plan installed) (plan_is_in_order installed)))

  asking_in_order : (r : Result (Unit {0})) → are_in_order [] [] (after_asking answer r).1 ≡ true
  unfolding after_asking is_installed are_in_order
  asking_in_order (ok u) = plan_in_order true
  asking_in_order (err e) = elim (Bool-cases (is_not_found e)) [
    | inl k ↦ rw k (plan_in_order false)
    | inr k ↦ rw k refl
  ]
  asking_in_order panic = refl

  start_in_order :
      (r : Result (Unit {0}))
      → are_in_order [] []
          (continue
            (λ _.
              attempt (note answer (get_crd deployments_crd))
              >>= is_installed
              >>= add_controllers (recorder answer) (applier answer))
            (r, make_manager ∷ [])).1
        ≡ true
  unfolding note are_in_order after_asking
  start_in_order (ok u) = asking_in_order (answer (get_crd deployments_crd))
  start_in_order (err e) = refl
  start_in_order panic = refl

  -- Whatever the calls of the manager's start answer, they are in order: the package of each kind
  -- that a controller watches is added to the scheme before the controller is registered, the manager
  -- is started only after the five controllers that it always has, and nothing comes after its start.
  pub startup_is_in_order :
      (o : Flags)
      → are_in_order [] [] ((run_manager (recorder answer) (applier answer) o []).1) ≡ true
  unfolding run_manager note
  startup_is_in_order o = start_in_order (answer make_manager)
