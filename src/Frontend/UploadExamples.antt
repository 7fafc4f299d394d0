-- ===== src/Frontend/UploadExamples.antt =====
-- The upload page with draws that never repeat: a batch of two files, one of them too large.
use Prim.Native.String.{count, ◌++◌ as ◌+++◌}
use text.Mathlib.TextLemmas.{append_cancel_left, length-cons, length-nil}
use doorito.Base.{
  ℕ, zero, suc, ◌<◌, ◌≡◌, refl, ◌∙◌, ap, ◌↔◌, false, some, String, List, [], ◌∷◌, length, arith,
  str_eq, eq_iff, Bool-cases, inl, inr,
}
use doorito.Base.Table.{find}
use doorito.World.{World, ok}
use doorito.Common.Sample.{empty}
use doorito.Common.Transactions.{documented}
use doorito.Portal.Models.{UploadBatch, UploadFile, BatchStatus, complete, partial}
use doorito.Portal.Files.{Platform}
use doorito.Portal.Create.{batch_pk}
use doorito.Frontend.Upload.{upload_batch, stored_count, failed_count}
use doorito.Frontend.Fresh.{AreFresh, event_key}
use doorito.Frontend.Uploaded.{upload_batch_reports}
use doorito.Frontend.Examples.{platform, tight, small, large, draws, file_draw}

-- A number as so many marks.
abbrev marks : ℕ → String
marks zero = ""
marks (suc n) = String.◌∷◌ "x" (marks n)

abbrev marking : Platform
marking = record platform { str_uuid = marks }

count-marks : (n : ℕ) → count (marks n) ≡ n
count-marks zero = length-nil
count-marks (suc n) = length-cons "x" (marks n) ∙ ap (λ (k : ℕ). suc k) (count-marks n)

marks_apart :
    (i j : ℕ)
    → i < j
    → str_eq (event_key marking (file_draw j)) (event_key marking (file_draw i)) ≡ false
marks_apart i j lt =
    elim (Bool-cases (str_eq (event_key marking (file_draw j)) (event_key marking (file_draw i)))) [
      | inl same ↦
          let equal = append_cancel_left ":" (marks j) (marks i) (
            append_cancel_left "UploadFile" (":" +++ marks j) (":" +++ marks i) (
              (eq_iff (event_key marking (file_draw j)) (event_key marking (file_draw i))).0
                same)) in
          absurd (omega (arith, lt, ap count equal, count-marks i, count-marks j))
      | inr differs ↦ differs
    ]

draws-AreFresh : AreFresh marking file_draw 0 empty
draws-AreFresh = record {
  free = λ i le. (refl, refl);
  apart = λ i j lt. (ground arith, ground arith, marks_apart i j lt);
}

upload_batch_reports_example :
    (batch : UploadBatch) × (results : List UploadFile) × (after : World) × (upload_batch documented
        marking tight draws
        (some 1)
        (small ∷ large ∷ [])
        empty
      ≡ (ok (batch, results), after))
    × (length results ≡ 2)
    × (find batch_pk batch.id after.db.batches ≡ some batch)
    × ((batch.status ≡ complete) ↔ (failed_count results ≡ 0))
    × ((batch.status ≡ partial) ↔ ((0 < failed_count results) × (0 < stored_count results)))
    × ((batch.status ≡ BatchStatus.failed) ↔ (stored_count results ≡ 0))
upload_batch_reports_example =
    upload_batch_reports documented marking tight draws (some 1) (small ∷ large ∷ []) empty
      (refl, refl) (omega arith) refl tt draws-AreFresh
