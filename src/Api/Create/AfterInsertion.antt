-- ===== src/Api/Create/AfterInsertion.antt =====
-- What `create` of server/src/api/requests.rs does after the insertion: the store's transactions and
-- nothing else, so that the terms of the new grant stay.
use keychute.Store
use keychute.Api.{ApiFailure}
use keychute.Api.Between.{
  api_raises, IsSteps, give-IsSteps, bind-IsSteps, when-IsSteps, read-IsSteps, transact-IsSteps,
  change-IsSteps, change, transact, when, ◌>>=◌,
}
use keychute.Api.Create.{
  answer_existing, fyi_push, approval_push, answer_released, answer_created, answer_inserted,
  Setting,
}
use keychute.Policy.{Decision, denied, notified, auto_approved, approval_required, unreachable}
use keychute.Prelude.{ℕ, Bool, true, false, Option, ◌&&◌, if◌then◌else◌}
use keychute.Store.{Db, AccessRequestRow}
use keychute.Store.Approvals.{InsertOutcome, created, existing, pending_cap_exceeded}
use keychute.Store.Pushes.{claim_for_push, claim_for_fyi_push}
use keychute.Store.Requests.{mark_push_delivered}
use keychute.Store.Steps.{Step, Reach}
use keychute.Types.{Uuid}

module _ (w : Setting) (steps : (k : ℕ) (db : Db) → Reach db (w.others k db)) where
  marked-IsSteps :
      (k : ℕ) (row : AccessRequestRow)
      → IsSteps {E = ApiFailure} (change w.others k (mark_push_delivered (w.clock k) row.id))
  marked-IsSteps k row =
      change-IsSteps w.others steps k _ (λ db. Step.push_marked (w.clock k) row.id)

  answer_existing-IsSteps : (k : ℕ) (row : AccessRequestRow) → IsSteps (answer_existing w k row)
  answer_existing-IsSteps k row =
      bind-IsSteps _ _ (give-IsSteps _)
        (λ u. bind-IsSteps _ _ (read-IsSteps w.others steps k _) (λ s. give-IsSteps _))

  fyi_push-IsSteps : (row : AccessRequestRow) → IsSteps (fyi_push w row)
  unfolding claim_for_fyi_push
  fyi_push-IsSteps row =
      bind-IsSteps _ _
        (transact-IsSteps w.others steps 5 (claim_for_fyi_push row.id)
          (λ a db db' h. Step.attempted _ a db' h))
        (λ c. when-IsSteps _ _ (marked-IsSteps 6 row))

  approval_push-IsSteps : (row : AccessRequestRow) → IsSteps (approval_push w row)
  unfolding claim_for_push
  approval_push-IsSteps row = bind-IsSteps _ _ (read-IsSteps w.others steps 5 _) (λ deduped.
      elim deduped
        as (λ b. IsSteps (
          if b
          then change w.others 6 (mark_push_delivered (w.clock 6) row.id)
          else (transact w.others 6 (claim_for_push (w.clock 6) row.id) >>= (λ claimed.
              when (claimed && w.notifier.delivers)
                (change w.others 7 (mark_push_delivered (w.clock 7) row.id)))))) [
                  | true ↦ marked-IsSteps 6 row
                  | false ↦
                      bind-IsSteps _ _
                        (transact-IsSteps w.others steps 6 (claim_for_push (w.clock 6) row.id)
                          (λ a db db' h. Step.attempted _ a db' h))
                        (λ c. when-IsSteps _ _ (marked-IsSteps 7 row))
                ])

  answer_released-IsSteps :
      (fyi : Bool) (secret : Option Store.SecretRow) (row : AccessRequestRow) (g : Option Uuid)
      → IsSteps (answer_released w fyi secret row g)
  answer_released-IsSteps fyi secret row g =
      bind-IsSteps _ _ (give-IsSteps _)
        (λ id. bind-IsSteps _ _ (when-IsSteps _ _ (fyi_push-IsSteps row)) (λ u. give-IsSteps _))

  answer_created-IsSteps :
      (d : Decision) (secret : Option Store.SecretRow) (row : AccessRequestRow) (g : Option Uuid)
      → IsSteps (answer_created w d secret row g)
  answer_created-IsSteps (denied r) secret row g = give-IsSteps _
  answer_created-IsSteps auto_approved secret row g = answer_released-IsSteps false secret row g
  answer_created-IsSteps notified secret row g = answer_released-IsSteps true secret row g
  answer_created-IsSteps approval_required secret row g =
      bind-IsSteps _ _ (when-IsSteps _ _ (approval_push-IsSteps row)) (λ u. give-IsSteps _)
  answer_created-IsSteps unreachable secret row g = give-IsSteps _

  pub answer_inserted-IsSteps :
      (d : Decision) (secret : Option Store.SecretRow) (o : InsertOutcome)
      → IsSteps (answer_inserted w d secret o)
  answer_inserted-IsSteps d secret pending_cap_exceeded = give-IsSteps _
  answer_inserted-IsSteps d secret (existing row) = answer_existing-IsSteps 5 row
  answer_inserted-IsSteps d secret (created row g) = answer_created-IsSteps d secret row g
