-- ===== src/Portal/Verdicts.antt =====
-- The status that `finalize_batch` (portal/services/uploads.py) gives a batch, against its contract:
-- COMPLETE if all files are stored, PARTIAL if some are stored and some failed, FAILED if all failed
-- or there is none.
use doorito.Base.{
  ℕ, zero, suc, ◌+◌, ◌<◌, ◌≡◌, refl, ◌↔◌, false, some, List, [], ◌∷◌, arith, count_if, length, ◌==◌,
  if◌then◌else◌,
}
use doorito.Base.Table.{find, modify, find-has, find-modify_self, find-modify_ne}
use doorito.World.{World, ok}
use doorito.Common.Transactions.{Transactions, finish}
use doorito.Common.Outbox.Sweep.{Idle, commit-Idle}
use doorito.Portal.Models.{
  UploadBatch, FileStatus, BatchStatus, uploading, stored, is_stored, is_failed, is_uploading,
  complete, partial,
}
use doorito.Portal.Create.{batch_pk}
use doorito.Portal.Batches.{batch_outcome, file_statuses, finalize_batch, finalize_body, save_batch}

-- Each file is stored, failed or still uploading.
counts-add :
    (xs : List FileStatus)
    → count_if is_stored xs + count_if is_failed xs + count_if is_uploading xs ≡ length xs
counts-add [] = refl
counts-add (uploading ∷ xs) = omega (arith, counts-add xs)
counts-add (stored ∷ xs) = omega (arith, counts-add xs)
counts-add (FileStatus.failed ∷ xs) = omega (arith, counts-add xs)

-- The choice between the numbers of stored and of failed files, of which there are `n`, more than
-- none.
choice : ℕ → ℕ → BatchStatus
choice good bad = if bad == 0 then complete else if good == 0 then BatchStatus.failed else partial

choice_contract :
    (good bad n : ℕ)
    → good + bad ≡ n
    → 0 < n
    → ((choice good bad ≡ complete) ↔ ((0 < n) × (good ≡ n)))
      × ((choice good bad ≡ partial) ↔ ((0 < good) × (0 < bad)))
      × ((choice good bad ≡ BatchStatus.failed) ↔ (bad ≡ n))
unfolding choice
choice_contract zero zero n sum pos = absurd (omega arith)
choice_contract (suc g) zero n sum pos = (
  ((λ e. (pos, omega arith)), λ e. refl),
  ((λ e. absurd cc), λ e. absurd (omega arith)),
  ((λ e. absurd cc), λ e. absurd (omega arith)),
)
choice_contract zero (suc b) n sum pos = (
  ((λ e. ground arith), λ e. absurd (omega arith)),
  ((λ e. ground arith), λ e. absurd (omega arith)),
  ((λ e. omega arith), λ e. ground arith),
)
choice_contract (suc g) (suc b) n sum pos = (
  ((λ e. ground arith), λ e. absurd (omega arith)),
  ((λ e. (omega arith, omega arith)), λ e. ground arith),
  ((λ e. ground arith), λ e. absurd (omega arith)),
)

pub batch_outcome_contract :
    (xs : List FileStatus)
    → count_if is_uploading xs ≡ 0
    → ((batch_outcome xs ≡ complete) ↔ ((0 < length xs) × (count_if is_stored xs ≡ length xs)))
      × ((batch_outcome xs ≡ partial) ↔ ((0 < count_if is_stored xs) × (0 < count_if is_failed xs)))
      × ((batch_outcome xs ≡ BatchStatus.failed) ↔ (count_if is_failed xs ≡ length xs))
unfolding batch_outcome choice
batch_outcome_contract [] h = (
  ((λ e. absurd cc), λ e. absurd (omega arith)),
  ((λ e. absurd cc), λ e. absurd (omega arith)),
  ((λ e. refl), λ e. refl),
)
batch_outcome_contract (x ∷ xs) h =
    choice_contract (count_if is_stored (x ∷ xs)) (count_if is_failed (x ∷ xs)) (length (x ∷ xs))
      (omega (arith, counts-add (x ∷ xs))) (omega arith)

-- A batch with a file that is still uploading and none that failed gets COMPLETE, although not all
-- of its files are stored.
pub batch_outcome_unfinished :
    (xs : List FileStatus)
    → count_if is_failed xs ≡ 0
    → 0 < count_if is_uploading xs
    → (batch_outcome xs ≡ complete) × (count_if is_stored xs < length xs)
unfolding batch_outcome
batch_outcome_unfinished [] h u = absurd (omega arith)
batch_outcome_unfinished (x ∷ xs) h u = (ground arith, omega (arith, counts-add (x ∷ xs)))

-- With no callback waiting, on a batch that is in the table: `finalize_batch` returns the batch
-- with the outcome of the files in it, the row gets that status and the time of the save and keeps
-- its other columns, and neither another batch nor a file changes.
pub finalize_batch_row :
    (tx : Transactions) (batch row : UploadBatch) (saved : ℕ) (w : World)
    → Idle w
    → find batch_pk batch.id w.db.batches ≡ some row
    → let status = batch_outcome (file_statuses batch.id w.db.files) in
      let (answer, w') = finalize_batch tx batch saved w in
      (answer ≡ ok (record batch { status = status; updated_at = saved }))
      × (find batch_pk batch.id w'.db.batches
          ≡ some (record row { status = status; updated_at = saved }))
      × ((other : ℕ)
          → (other == batch.id) ≡ false
          → find batch_pk other w'.db.batches ≡ find batch_pk other w.db.batches)
      × (w'.db.files ≡ w.db.files)
unfolding finalize_batch finish finalize_body save_batch
finalize_batch_row tx batch row saved w idle found =
    let status = batch_outcome (file_statuses batch.id w.db.files) in
    let step : UploadBatch → UploadBatch = λ b. record b { status = status; updated_at = saved } in
    rw
      (
        tx.atomic_runs UploadBatch (finalize_body batch saved) w,
        find-has batch_pk batch.id w.db.batches found,
        commit-Idle
            (record w { db = record w.db { batches = modify batch_pk batch.id step w.db.batches } })
            idle,
      )
      (
        refl,
        find-modify_self batch_pk batch.id step w.db.batches (λ b. refl) found,
        (λ other ne. find-modify_ne batch_pk other batch.id step w.db.batches (λ b. refl) ne),
        refl,
      )
