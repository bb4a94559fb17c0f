-- ===== src/Startup/Started.antt =====
-- When the manager comes to run, and with which controllers.
use mathlib.Core.List.{append-nil, append_assoc}
use idp_mgmt_operator.Base.{
  Bool, true, false, inl, inr, Bool-cases, List, [], ◌∷◌, ◌++◌, All, ◌≡◌, refl, sym, ap, ◌∙◌, ◌↔◌,
  arith,
}
use idp_mgmt_operator.Api.Action.{Action, Result, ok, err, panic, Error, is_not_found, continue}
use idp_mgmt_operator.Startup.Commands.{
  Flags, deployments_crd, is_installed, add_controllers, run_manager,
}
use idp_mgmt_operator.Startup.Calls.{Call, make_manager, get_crd, note, recorder, applier, perform}
use idp_mgmt_operator.Startup.Plan.{plan}
use idp_mgmt_operator.Startup.Parts.{add_controllers-Performs, asked, after_asking}

module _ (answer : Call → Result (Unit {0})) where
  abbrev pub Succeeds : Call → Type 0
  Succeeds c = answer c ≡ ok tt

  -- What the request for the definition of hypershift deployments says.
  abbrev pub Answers : Bool → Result (Unit {0}) → Type 0
  Answers true r = r ≡ ok tt
  Answers false r = (e : Error) × (r ≡ err e) × (is_not_found e ≡ true)

  -- The manager has been started with these calls, and has been stopped without an error.
  pub record Started (calls : List Call) : Type 0 where
    pub installed : Bool
    pub manager_is_made : Succeeds make_manager
    pub crd_is_known : Answers installed (answer (get_crd deployments_crd))
    pub all_succeed : All Succeeds (plan installed)
    pub calls_made : calls ≡ make_manager ∷ get_crd deployments_crd ∷ plan installed

  first_succeeds :
      (r : Result (Unit {0})) (k : Action (List Call) (Unit {0})) (calls : List Call)
      {end : List Call}
      → continue (λ _. k) (r, calls) ≡ (ok tt, end)
      → (r ≡ ok tt) × (k calls ≡ (ok tt, end))
  first_succeeds (ok u) k calls h = (refl, h)
  first_succeeds (err e) k calls h = absurd (cc)
  first_succeeds panic k calls h = absurd (cc)

  perform-eq-ok :
      (cs calls : List Call) {end : List Call}
      → perform answer cs calls ≡ (ok tt, end)
      → All Succeeds cs × (end ≡ calls ++ cs)
  unfolding note
  perform-eq-ok [] calls h =
      (tt, sym (ap (λ (p : Result (Unit {0}) × List Call). p.1) h) ∙ sym (append-nil calls))
  perform-eq-ok (c ∷ cs) calls h =
      let (first, rest) = first_succeeds (answer c) (perform answer cs) (calls ++ c ∷ []) h in
      let (others, e) = perform-eq-ok cs (calls ++ c ∷ []) rest in
      ((first, others), e ∙ append_assoc calls (c ∷ []) cs)

  perform-All :
      (cs calls : List Call) → All Succeeds cs → perform answer cs calls ≡ (ok tt, calls ++ cs)
  unfolding note
  perform-All [] calls h = rw append-nil refl
  perform-All (c ∷ cs) calls (first, others) =
      rw (first, perform-All cs (calls ++ c ∷ []) others, append_assoc calls (c ∷ []) cs) refl

  asking_succeeds :
      (r : Result (Unit {0})) {end : List Call}
      → after_asking answer r ≡ (ok tt, end)
      → (installed : Bool) × Answers installed r
        × (add_controllers (recorder answer) (applier answer) installed (asked answer)
            ≡ (ok tt, end))
  unfolding after_asking is_installed
  asking_succeeds (ok u) h = (true, refl, h)
  asking_succeeds (err e) h = elim (Bool-cases (is_not_found e)) [
    | inl k ↦ (false, (e, refl, k), rw k at h)
    | inr k ↦ let h' = rw k at h in absurd (ground arith)
  ]
  asking_succeeds panic h = absurd (cc)

  asked_then :
      (installed : Bool) (r : Result (Unit {0}))
      → Answers installed r
      → after_asking answer r
        ≡ add_controllers (recorder answer) (applier answer) installed (asked answer)
  unfolding after_asking is_installed
  asked_then true r h = rw h refl
  asked_then false r (e, h, k) = rw (h, k) refl

  -- The run of the manager ends without an error, after certain calls, exactly if the manager could
  -- be made, the definition of hypershift deployments was got or is not found, all calls of the plan
  -- for this case succeed, and the calls are these, in their order. The plan adds the controller of
  -- hypershift deployments, and the watch of them by the ClusterOAuth controller, if the definition
  -- was got.
  pub manager_runs_iff :
      (o : Flags) (calls : List Call)
      → (run_manager (recorder answer) (applier answer) o [] ≡ (ok tt, calls)) ↔ Started calls
  unfolding run_manager note after_asking
  manager_runs_iff o calls = (
    λ h.
        let (first, rest) = first_succeeds (answer make_manager) _ (make_manager ∷ []) h in
        let (installed, known, h') = asking_succeeds (answer (get_crd deployments_crd)) rest in
        let (others, e) =
          perform-eq-ok (plan installed) (asked answer)
            (sym ((add_controllers-Performs answer installed).does (asked answer)) ∙ h') in
        record {
          installed = installed;
          manager_is_made = first;
          crd_is_known = known;
          all_succeed = others;
          calls_made = e;
        },
    λ s.
        rw (s.calls_made, s.manager_is_made)
          (asked_then s.installed (answer (get_crd deployments_crd)) s.crd_is_known
            ∙ (add_controllers-Performs answer s.installed).does (asked answer)
            ∙ perform-All (plan s.installed) (asked answer) s.all_succeed),
  )
