-- ===== src/AuthRealm/Settling.antt =====
-- The deletion of an AuthRealm comes to its end: after as many reconciliations as there are objects
-- at most, the finalizer is dropped.
use idp_mgmt_operator.Base.{ℕ, zero, suc, ◌+◌, ◌≤◌, ◌<◌, true, ◌≡◌, refl, sym, ap, ◌∙◌, arith}
use idp_mgmt_operator.Api.Action.{Result, ok, pure, done, CtrlResult, requeue_in_1s, >>=-eq-ok}
use idp_mgmt_operator.Api.Meta.{ObjectKey, is_deleting}
use idp_mgmt_operator.Api.Identity.{AuthRealm}
use idp_mgmt_operator.Api.Client.{Env}
use idp_mgmt_operator.Helpers.Names.{authrealm_finalizer}
use idp_mgmt_operator.AuthRealm.Deletion.{process_authrealm_deletion, drop_finalizer}
use idp_mgmt_operator.AuthRealm.Reconcile.{Installer, reconcile_instance, reconcile}
use idp_mgmt_operator.AuthRealm.Rounds.{
  NoClients, Answers, Advance, settled, advanced, deletion-Advance,
}

module _ {W : Type 0} (env : Env W) (installer : Installer W) (req : ObjectKey) where
  -- From one world to another by `n` reconciliations of the AuthRealm that ask to come back, each
  -- with what goes on after it: the work of others, and reconciliations that come too early.
  pub data Course (Meanwhile : W → W → Type 0) : ℕ → W → W → Type 0 where
    rest : {w : W} → Course Meanwhile 0 w w
    again :
        {n : ℕ} {w v u w' : W}
        → reconcile env installer req w ≡ (ok requeue_in_1s, v)
        → Meanwhile v u
        → Course Meanwhile n u w'
        → Course Meanwhile (suc n) w w'

-- The write that drops the finalizer does not ask to come back.
drop_is_last :
    {W : Type 0} (env : Env W) (target : AuthRealm) (w : W) {v : W}
    → drop_finalizer env target w ≡ (ok requeue_in_1s, v)
    → ⊥
unfolding drop_finalizer
drop_is_last env target w h =
    let (updated, v, written, last) =
      >>=-eq-ok
        (env.auth_realms.update (record target {
          meta = record (target.meta) {
            finalizers = env.remove_finalizer target.meta.finalizers authrealm_finalizer;
          };
        }))
        (λ _. pure done) w h in
    absurd (ground arith)

module _ {W : Type 0} (env : Env W) (installer : Installer W) (req : ObjectKey) (target : AuthRealm)
    (Asked : W → W → Type 0) where
  -- The next reconciliation drops the finalizer, or asks for deletions and to come back.
  pub data Next (w : W) : Type 0 where
    drops : reconcile env installer req w ≡ drop_finalizer env target w → Next w
    deletes : {v : W} → reconcile env installer req w ≡ (ok requeue_in_1s, v) → Asked w v → Next w

module _ {W : Type 0} (env : Env W) (installer : Installer W) (req : ObjectKey) (target : AuthRealm)
    (IsCalm : W → Type 0) (Asked : W → W → Type 0) (laws : Answers env req target IsCalm Asked)
    (deleting : is_deleting target.meta ≡ true)
    -- the dex clients are gone
    (clients_gone : (w : W) → IsCalm w → NoClients env target w) where
  after_deletion :
      (w : W)
      → IsCalm w
      → Advance Asked (process_authrealm_deletion env target) w
      → Next env installer req target Asked w
  unfolding reconcile reconcile_instance
  after_deletion w calm (settled e) = drops (rw (laws.target_found w calm, deleting, e) refl)
  after_deletion w calm (advanced e asked) =
      deletes (rw (laws.target_found w calm, deleting, e) refl) asked

  every_round : (w : W) → IsCalm w → Next env installer req target Asked w
  every_round w calm =
      after_deletion w calm
        (deletion-Advance env req target IsCalm Asked laws w calm (clients_gone w calm))

  terminates_within :
      (size : W → ℕ) (meanwhile : W → W)
      → ((w v : W) → IsCalm w → Asked w v → (size (meanwhile v) < size w) × IsCalm (meanwhile v))
      → (bound : ℕ) (w : W) → IsCalm w
      → size w ≤ bound
      → (n : ℕ) × (w' : W) × (n + size w' ≤ size w)
        × Course env installer req (λ v u. u ≡ meanwhile v) n w w'
        × (reconcile env installer req w' ≡ drop_finalizer env target w')
  terminates_within size meanwhile carries zero w calm le = elim (every_round w calm) [
    | drops e ↦ (0, w, omega arith, Course.rest, e)
    | deletes {v} e asked ↦ let (less, calm') = carries w v calm asked in absurd (omega arith)
  ]
  terminates_within size meanwhile carries (suc bound) w calm le = elim (every_round w calm) [
    | drops e ↦ (0, w, omega arith, Course.rest, e)
    | deletes {v} e asked ↦
        let (less, calm') = carries w v calm asked in
        let (n, w', fewer, rounds, last) =
          terminates_within size meanwhile carries bound (meanwhile v) calm' (omega arith) in
        (suc n, w', omega arith, Course.again e refl rounds, last)
  ]

  -- The deletion of an AuthRealm terminates: some number of reconciliations that ask for deletions
  -- and to come back, at most as many as there are objects, leads to a world in which the
  -- reconciliation does nothing but drop the finalizer. It is provided that the dex clients are gone,
  -- that the server answers and accepts the deletions, and that what goes on after each of these
  -- reconciliations carries the deletions out as far as to leave fewer objects than before, and lets
  -- the deletion of the AuthRealm go on.
  pub deletion_terminates :
      (size : W → ℕ) (meanwhile : W → W)
      → ((w v : W) → IsCalm w → Asked w v → (size (meanwhile v) < size w) × IsCalm (meanwhile v))
      → (w : W) → IsCalm w
      → (n : ℕ) × (w' : W) × (n + size w' ≤ size w)
        × Course env installer req (λ v u. u ≡ meanwhile v) n w w'
        × (reconcile env installer req w' ≡ drop_finalizer env target w')
  deletion_terminates size meanwhile carries w calm =
      terminates_within size meanwhile carries (size w) w calm (omega arith)

  -- However others go on between the reconciliations of an AuthRealm that is being deleted, there are
  -- at most as many reconciliations that ask for deletions and to come back as there were objects,
  -- and the next one drops the finalizer or asks for deletions again. It is provided that the dex
  -- clients are gone, that the server answers and accepts the deletions, and that what goes on
  -- carries them out as far as to leave fewer objects than before the reconciliation, and lets the
  -- deletion of the AuthRealm go on.
  pub rounds_are_bounded :
      (size : W → ℕ) (Meanwhile : W → W → Type 0)
      → ((w v u : W) → IsCalm w → Asked w v → Meanwhile v u → (size u < size w) × IsCalm u)
      → {n : ℕ} (w : W) {w' : W} → IsCalm w
      → Course env installer req Meanwhile n w w'
      → (n + size w' ≤ size w) × Next env installer req target Asked w'
  rounds_are_bounded size Meanwhile carries w calm Course.rest = (omega arith, every_round w calm)
  rounds_are_bounded size Meanwhile carries w calm (Course.again {v} {u} e step rounds) =
      elim (every_round w calm) [
        | drops e' ↦ absurd (drop_is_last env target w {v = v} (cc))
        | deletes {v = v'} e' asked ↦
            let same : v' ≡ v = ap (λ (p : Result CtrlResult × W). p.1) (sym e' ∙ e) in
            let (less, calm') = carries w v u calm (rw same at asked) step in
            let (bound, next) = rounds_are_bounded size Meanwhile carries u calm' rounds in
            (omega arith, next)
      ]
