-- ===== src/Portal/Sessions.antt =====
-- portal/services/sessions.py: the life of a chunked upload.
use Prim.Native.String.{◌++◌}
use doorito.Base.{
  ℕ, ◌+◌, Bool, Option, none, some, String, [], ◌∷◌, ◌==◌, ◌&&◌, ◌||◌, ltb, any, count_if, not,
  ◌++◌ as append, if◌then◌else◌,
}
use doorito.Base.Table.{find, has, modify}
use doorito.Base.Text.{show}
use doorito.World.{
  World, Action, ok, err, integrity_error, does_not_exist, zero_division, value_error, raise, pure,
  ◌>>=◌, ◌>>◌,
}
use doorito.Common.Transactions.{Transactions}
use doorito.Portal.Models.{
  UploadFile, UploadSession, UploadPart, is_uploading, is_received, SessionStatus, FileStatus,
  PartStatus,
}
use doorito.Portal.Create.{file_pk}

abbrev pub session_pk : UploadSession → ℕ
session_pk s = s.id

-- `chunk_size_bytes`, or 5 MB.
unfoldable pub chunk_or_default : Option ℕ → ℕ
chunk_or_default none = 5_242_880
chunk_or_default (some n) = n

-- `UploadSession.objects.create`: the file is in its table, the primary key is new, and a file has
-- one session. Outside a transaction the database checks the foreign key at once.
unfoldable pub insert_session : UploadSession → Action UploadSession
insert_session row w =
    if not (has file_pk row.file w.db.files)
      || any (λ (s : UploadSession). (row.id == s.id) || (row.file == s.file)) w.db.sessions
    then (err integrity_error, w)
    else (ok row, record w { db = record w.db { sessions = append w.db.sessions (row ∷ []) } })

-- `ceil_div a b` stands for `math.ceil(a / b)`, a division of floats.
unfoldable pub create_upload_session :
    (ℕ → ℕ → ℕ) → UploadFile → ℕ → Option ℕ → ℕ → ℕ → Action UploadSession
unfolding chunk_or_default insert_session
create_upload_session ceil_div upload_file total_size_bytes chunk_size_bytes id saved =
    let chunk = chunk_or_default chunk_size_bytes in
    if chunk == 0
    then raise zero_division
    else insert_session (record {
      id = id;
      file = upload_file.id;
      status = SessionStatus.init;
      chunk_size_bytes = chunk;
      total_size_bytes = total_size_bytes;
      total_parts = ceil_div total_size_bytes chunk;
      bytes_received = 0;
      completed_parts = 0;
      updated_at = saved;
    })

-- `UploadPart.objects.create`: the session is in its table, the primary key is new, and
-- `unique_session_part_number` holds.
unfoldable pub insert_part : UploadPart → Action UploadPart
insert_part row w =
    if not (has session_pk row.session w.db.sessions)
      || any
          (λ (q : UploadPart).
            (row.id == q.id) || (row.session == q.session && row.part_number == q.part_number))
          w.db.parts
    then (err integrity_error, w)
    else (ok row, record w { db = record w.db { parts = append w.db.parts (row ∷ []) } })

-- The `F()` expressions: the counters of the row itself go up, whatever the instance holds.
unfoldable pub advance_session : ℕ → ℕ → Action (Unit {0})
advance_session session size_bytes w = (
  ok tt,
  record w {
    db = record w.db {
      sessions =
          modify session_pk session
            (λ s. record s {
              completed_parts = s.completed_parts + 1;
              bytes_received = s.bytes_received + size_bytes;
              status = SessionStatus.in_progress;
            })
            w.db.sessions;
    };
  },
)

unfoldable pub record_upload_part : UploadSession → ℕ → ℕ → ℕ → String → ℕ → Action UploadPart
unfolding insert_part advance_session
record_upload_part session part_number offset_bytes size_bytes sha256 id = do
  part ← insert_part (record {
    id = id;
    session = session.id;
    part_number = part_number;
    offset_bytes = offset_bytes;
    size_bytes = size_bytes;
    sha256 = sha256;
    status = PartStatus.received;
  })
  advance_session session.id size_bytes
  pure part

-- `session.parts.filter(status=RECEIVED)`
abbrev pub part_received : ℕ → UploadPart → Bool
part_received session q = (session == q.session) && is_received q.status

-- `session.save(…)` and the update of the file, which names only a file that is still UPLOADING.
unfoldable pub finish_session : UploadSession → ℕ → World → World
finish_session session saved w = record w {
  db = record w.db {
    sessions =
        modify session_pk session.id
          (λ row. record row { status = SessionStatus.complete; updated_at = saved }) w.db.sessions;
    files =
        modify file_pk session.file
          (λ f. if is_uploading f.status then record f { status = FileStatus.stored } else f)
          w.db.files;
  };
}

-- What follows `refresh_from_db`, on the row that it read.
unfoldable pub complete_refreshed : (ℕ → String) → Option UploadSession → ℕ → Action UploadSession
unfolding finish_session
complete_refreshed str_uuid none saved w = (err does_not_exist, w)
complete_refreshed str_uuid (some session) saved w =
    let received_count = count_if (part_received session.id) w.db.parts in
    if ltb received_count session.total_parts
    then (
      err (
          value_error (
            "Cannot complete session "
            ++ (str_uuid session.id
                ++ (": received "
                    ++ (show received_count
                        ++ (" of " ++ (show session.total_parts ++ " parts."))))))),
      w,
    )
    else (
      ok (record session { status = SessionStatus.complete; updated_at = saved }),
      finish_session session saved w,
    )

unfoldable pub complete_upload_session :
    Transactions → (ℕ → String) → UploadSession → ℕ → Action UploadSession
unfolding complete_refreshed
complete_upload_session tx str_uuid session saved =
    tx.atomic UploadSession
      (λ w. complete_refreshed str_uuid (find session_pk session.id w.db.sessions) saved w)
