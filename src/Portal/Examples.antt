-- ===== src/Portal/Examples.antt =====
-- Runs of the portal's code on sample data, and each theorem about it at a concrete input.
use doorito.Base.{
  ℕ, ◌<◌, ◌≡◌, refl, sym, ap, ◌↔◌, ◌≤◌, String, none, some, List, [], ◌∷◌, arith, count_if, length,
}
use mathlib.Core.List.{append-nil}
use doorito.Base.Text.{show}
use doorito.World.{World, ok, err, integrity_error}
use doorito.Common.Sample
use doorito.Common.Sample.{empty}
use doorito.Common.Transactions.{documented}
use doorito.Portal.Models.{uploading, stored, complete, is_stored}
use doorito.Portal.Files.{
  Platform, ReadsWhole, UploadedFile, Settings, settings, validate_file, compute_sha256, concat,
}
use doorito.Portal.Create.{Draw, create_upload_file, failed_row}
use doorito.Portal.Batches.{batch_outcome}
use doorito.Portal.Validation.{compute_sha256_whole}
use doorito.Portal.Accepting.{IsLimit, IsType, Allows, Refused, validate_file_accepts}
use doorito.Portal.Storing.{
  kept, row_of, event_of, with_file, create_upload_file_rolled_back, create_upload_file_refused,
}
use doorito.Common.Outbox.Emit.{new_event, clashes}
use doorito.Portal.Outcomes.{Outcome, create_upload_file-Outcome}
use doorito.Portal.Verdicts.{batch_outcome_unfinished}

-- Files come in one chunk, and the digest is the number of bytes.
abbrev pub platform : Platform
platform = record {
  guess_type = λ name. some "text/plain";
  chunks = λ n content. content ∷ [];
  sha256 = λ pieces. show (length (concat pieces));
  url = λ path. path;
  str_uuid = show;
}

platform-ReadsWhole : ReadsWhole platform
platform-ReadsWhole = record {
  chunks_content = λ n content. append-nil content;
  sha256_pieces = λ pieces. ap (λ (b : List ℕ). show (length b)) (sym (append-nil (concat pieces)));
}

abbrev pub upload : UploadedFile
upload = record { name = "a.txt"; size = 3; content = 97 ∷ 98 ∷ 99 ∷ []; position = 2 }

abbrev pub draw : Draw
draw = record { id = 9; path = "uploads/a.txt"; saved = 150; event = Sample.draw }

validate_file_accepts_example :
    let answer = validate_file platform settings upload (some 2) in
    (limit : ℕ) × (content_type : String) × IsLimit (some 2) settings limit
    × IsType (platform.guess_type upload.name) content_type
    × ((answer ≡ ok (content_type, upload.size))
        ↔ ((upload.size ≤ limit) × Allows settings.file_upload_allowed_types content_type))
    × (Refused answer "file_too_large" ↔ (limit < upload.size))
    × (Refused answer "file_type_not_allowed"
        ↔ ((upload.size ≤ limit) × (Allows settings.file_upload_allowed_types content_type → ⊥)))
validate_file_accepts_example = validate_file_accepts platform settings upload (some 2)

hashed_whole :
    compute_sha256 platform upload
    ≡ (platform.sha256 ((97 ∷ 98 ∷ 99 ∷ []) ∷ []), record upload { position = 0 })
hashed_whole = compute_sha256_whole platform upload platform-ReadsWhole

unfinished_batch_completes :
    (batch_outcome (uploading ∷ stored ∷ []) ≡ complete)
    × (count_if is_stored (uploading ∷ stored ∷ []) < length (uploading ∷ stored ∷ []))
unfinished_batch_completes = batch_outcome_unfinished (uploading ∷ stored ∷ []) refl (omega arith)

-- The key of the event is taken.
abbrev announced : World
announced = record empty {
  db = record empty.db {
    outbox =
        event_of documented platform settings (some 1) upload none (record draw { id = 8 }) empty
          (row_of documented platform settings (some 1) upload none draw empty "text/plain" 3)
        ∷ [];
  };
}

clash_rolls_back :
    create_upload_file documented platform settings (some 1) upload none draw announced
    ≡ (err integrity_error, kept documented platform settings (some 1) upload none draw announced)
unfolding validate_file new_event clashes
clash_rolls_back =
    create_upload_file_rolled_back documented platform settings (some 1) upload none draw announced
      "text/plain" 3 refl refl refl

abbrev tight : Settings
tight = record settings { file_upload_max_size = 2 }

too_large_refused :
    let row =
      failed_row (some 1) upload none draw "File size 3 bytes exceeds maximum of 2 bytes." in
    create_upload_file documented platform tight (some 1) upload none draw empty ≡ (
      ok row,
      with_file documented platform tight
          (some 1)
          upload
          none
          draw
          empty
          row
          (kept documented platform tight (some 1) upload none draw empty),
    )
unfolding validate_file show
too_large_refused =
    create_upload_file_refused documented platform tight (some 1) upload none draw empty
      "File size 3 bytes exceeds maximum of 2 bytes." "file_too_large" refl refl

create_upload_file-Outcome_example :
    Outcome documented platform settings
      (some 1)
      upload
      none
      draw
      announced
      (validate_file platform settings upload none)
create_upload_file-Outcome_example =
    create_upload_file-Outcome documented platform settings (some 1) upload none draw announced
      (refl, refl) refl
