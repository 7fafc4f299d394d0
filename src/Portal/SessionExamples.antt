-- ===== src/Portal/SessionExamples.antt =====
-- The theorems about upload sessions at a concrete input: a session of three bytes in two parts.
use Prim.Native.String.{◌++◌}
use doorito.Base.{
  ℕ, ◌+◌, ◌-◌, ◌/◌, ◌≡◌, refl, ap, inr, true, false, none, some, [], ◌∷◌, ◌++◌ as append, arith,
  any, ◌==◌,
}
use doorito.Base.Table.{find}
use doorito.Base.Text.{show}
use doorito.World.{World, ok, err, integrity_error, value_error}
use doorito.Common.Sample.{empty}
use doorito.Common.Transactions.{documented, finish}
use doorito.Portal.Models.{
  UploadFile, UploadSession, UploadPart, FileStatus, SessionStatus, PartStatus,
}
use doorito.Portal.Create.{file_pk}
use doorito.Portal.Sessions.{
  session_pk, create_upload_session, record_upload_part, complete_upload_session, finish_session,
}
use doorito.Portal.Uploading.{Tallied}
use doorito.Portal.Journey.{here, next, create, part, Calls-Tallied}
use doorito.Portal.Covering.{part_at}
use doorito.Portal.Completion.{
  complete_upload_session_short, complete_upload_session_enough, complete_upload_session_covers,
  complete_upload_session_file,
}
use doorito.Portal.Recording.{record_upload_part_row, record_upload_part_twice, record_reopens}

abbrev ceil_div : ℕ → ℕ → ℕ
ceil_div a b = (a + b - 1) / b

abbrev file : UploadFile
file = record {
  id = 1;
  batch = none;
  uploaded_by = none;
  file = "uploads/c.bin";
  original_filename = "c.bin";
  content_type = "application/octet-stream";
  size_bytes = 3;
  sha256 = "";
  status = FileStatus.uploading;
  error_message = "";
  created_at = 0;
  updated_at = 0;
}

abbrev session : ℕ → ℕ → SessionStatus → UploadSession
session completed bytes status = record {
  id = 5;
  file = 1;
  status = status;
  chunk_size_bytes = 2;
  total_size_bytes = 3;
  total_parts = 2;
  bytes_received = bytes;
  completed_parts = completed;
  updated_at = 0;
}

abbrev chunk : ℕ → ℕ → UploadPart
chunk number size = record {
  id = number;
  session = 5;
  part_number = number;
  offset_bytes = 0;
  size_bytes = size;
  sha256 = "";
  status = PartStatus.received;
}

-- One part of the two has come.
abbrev half : World
half = record empty {
  db = record empty.db {
    files = file ∷ [];
    sessions = session 1 2 SessionStatus.in_progress ∷ [];
    parts = chunk 1 2 ∷ [];
  };
}

half-Tallied : Tallied half.db
half-Tallied = record {
  counted = ((refl, refl), tt);
  numbered = (refl, tt);
  owned = (refl, tt);
  all_received = (refl, tt);
}

-- Both have.
abbrev full : World
full = record empty {
  db = record empty.db {
    files = file ∷ [];
    sessions = session 2 3 SessionStatus.in_progress ∷ [];
    parts = chunk 1 2 ∷ chunk 2 1 ∷ [];
  };
}

full-Tallied : Tallied full.db
full-Tallied = record {
  counted = ((refl, refl), tt);
  numbered = (refl, (refl, tt));
  owned = (refl, (refl, tt));
  all_received = (refl, (refl, tt));
}

-- The file has its row.
abbrev uploading : World
uploading = record empty { db = record empty.db { files = file ∷ [] } }

abbrev created : World
created = (create_upload_session ceil_div file 3 (some 2) 5 0 uploading).1

Calls-Tallied_example :
    Tallied (record_upload_part (session 0 0 SessionStatus.init) 1 0 2 "" 1 created).1.db
Calls-Tallied_example = Calls-Tallied documented ceil_div show {start = uploading} refl refl refl (
    next (next here (create file 3 (some 2) 5 0 uploading))
      (part (session 0 0 SessionStatus.init) 1 0 2 "" 1 created))

half_refused : complete_upload_session documented show (session 0 0 SessionStatus.init) 9 half ≡ (
  err (
      value_error (
        "Cannot complete session "
        ++ (show 5 ++ (": received " ++ (show 1 ++ (" of " ++ (show 2 ++ " parts."))))))),
  half,
)
half_refused =
    complete_upload_session_short documented show (session 0 0 SessionStatus.init)
      (session 1 2 SessionStatus.in_progress) 9 half refl half-Tallied refl (omega arith)

full_completes : complete_upload_session documented show (session 0 0 SessionStatus.init) 9 full ≡ (
  ok (record (session 2 3 SessionStatus.complete) { updated_at = 9 }),
  finish_session (session 2 3 SessionStatus.in_progress) 9 full,
)
full_completes =
    complete_upload_session_enough documented show (session 0 0 SessionStatus.init)
      (session 2 3 SessionStatus.in_progress) 9 full refl full-Tallied refl (omega arith)

complete_upload_session_covers_example : any (part_at 5 2) full.db.parts ≡ true
complete_upload_session_covers_example =
    complete_upload_session_covers documented show (session 0 0 SessionStatus.init)
      (session 2 3 SessionStatus.in_progress) 9 full refl full-Tallied refl
      (record (session 2 3 SessionStatus.complete) { updated_at = 9 }) 2
      (ap (λ r. r.0) full_completes)
      (inr (omega arith, omega arith), (inr (omega arith, omega arith), tt)) (omega arith)
      (omega arith)

completed_upload_file :
    let w' = (complete_upload_session documented show (session 0 0 SessionStatus.init) 9 full).1 in
    (find file_pk 1 w'.db.files ≡ some (record file { status = FileStatus.stored }))
    × ((other : ℕ)
        → (other == 1) ≡ false
        → find file_pk other w'.db.files ≡ find file_pk other full.db.files)
completed_upload_file =
    complete_upload_session_file documented show (session 0 0 SessionStatus.init)
      (session 2 3 SessionStatus.in_progress) 9 full refl full-Tallied refl file (omega arith) refl

recorded_part_row :
    let (answer, w') = record_upload_part (session 0 0 SessionStatus.init) 2 2 1 "" 2 half in
    (answer ≡ ok (record (chunk 2 1) { offset_bytes = 2 }))
    × (w'.db.parts ≡ append half.db.parts (record (chunk 2 1) { offset_bytes = 2 } ∷ []))
    × (find session_pk 5 w'.db.sessions ≡ some (session 2 3 SessionStatus.in_progress))
    × ((other : ℕ)
        → (other == 5) ≡ false
        → find session_pk other w'.db.sessions ≡ find session_pk other half.db.sessions)
    × (w'.db.files ≡ half.db.files)
recorded_part_row =
    record_upload_part_row (session 0 0 SessionStatus.init) (session 1 2 SessionStatus.in_progress)
      2 2 1 "" 2 half refl refl

second_copy_refused :
    record_upload_part (session 0 0 SessionStatus.init) 1 0 2 "" 8 half
    ≡ (err integrity_error, half)
second_copy_refused = record_upload_part_twice (session 0 0 SessionStatus.init) 1 0 2 "" 8 half refl

record_reopens_example :
    let done =
      (complete_upload_session documented show (session 0 0 SessionStatus.init) 9 full).1 in
    let after = (record_upload_part (session 0 0 SessionStatus.init) 3 3 1 "" 3 done).1 in
    (find session_pk 5 done.db.sessions
      ≡ some (record (session 2 3 SessionStatus.complete) { updated_at = 9 }))
    × (find session_pk 5 after.db.sessions
        ≡ some (record (session 3 4 SessionStatus.in_progress) { updated_at = 9 }))
    × (after.db.files ≡ done.db.files)
record_reopens_example =
    record_reopens documented show (session 0 0 SessionStatus.init)
      (session 2 3 SessionStatus.in_progress) 9 3 3 1 "" 3 full refl full-Tallied refl (omega arith)
      refl

-- A part of a session that has no row.
orphan_refused :
    record_upload_part (session 0 0 SessionStatus.init) 1 0 2 "" 1 uploading
    ≡ (err integrity_error, uploading)
unfolding record_upload_part
orphan_refused = refl

-- The second and a third part have come, and the first has not.
abbrev gap : World
gap = record full { db = record full.db { parts = chunk 2 1 ∷ chunk 3 2 ∷ [] } }

-- The session completes all the same: the numbers of the parts are not looked at.
gap_completes :
    ((complete_upload_session documented show (session 0 0 SessionStatus.init) 9 gap).0
      ≡ ok (record (session 2 3 SessionStatus.complete) { updated_at = 9 }))
    × (any (part_at 5 1) gap.db.parts ≡ false)
unfolding complete_upload_session finish
gap_completes = (refl, refl)
