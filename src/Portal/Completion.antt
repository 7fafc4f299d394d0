-- ===== src/Portal/Completion.antt =====
-- What `complete_upload_session` of portal/services/sessions.py answers and leaves.
use Prim.Native.String.{◌++◌}
use doorito.Base.{
  ℕ, ◌<◌, ◌≤◌, ◌≡◌, refl, sym, ◌∙◌, ap, true, false, some, String, List, [], ◌∷◌, arith, All, any,
  count_if, ◌==◌, ltb, if◌then◌else◌, Bool-cases, inl, inr,
}
use doorito.Base.Table.{All-find, find, find-modify_self, find-modify_ne}
use doorito.Base.Text.{show}
use doorito.World.{World, Result, ok, err, value_error}
use doorito.Common.Transactions.{Transactions, finish}
use doorito.Common.Outbox.Sweep.{Idle, commit-Idle}
use doorito.Portal.Models.{
  UploadFile, UploadSession, UploadPart, SessionStatus, FileStatus, is_received, is_uploading,
}
use doorito.Portal.Create.{file_pk}
use doorito.Portal.Sessions.{
  session_pk, part_received, complete_refreshed, complete_upload_session, finish_session,
}
use doorito.Portal.Counters.{part_of, Counted}
use doorito.Portal.Uploading.{Tallied}
use doorito.Portal.Covering.{InRange, part_at, All-present}

received-All :
    (k : ℕ) (qs : List UploadPart)
    → All (λ (q : UploadPart). is_received q.status ≡ true) qs
    → count_if (part_received k) qs ≡ count_if (part_of k) qs
received-All k [] h = refl
received-All k (q ∷ qs) h = ground (arith, received-All k qs h.1, h.0)

module _ (tx : Transactions) (str_uuid : ℕ → String) (session row : UploadSession) (saved : ℕ)
    (w : World) (idle : Idle w) (tallied : Tallied w.db)
    (found : find session_pk session.id w.db.sessions ≡ some row) where
  count-eq : count_if (part_received row.id) w.db.parts ≡ row.completed_parts
  count-eq =
      received-All row.id w.db.parts tallied.all_received
      ∙ sym (
          (All-find session_pk (Counted w.db.parts) session.id w.db.sessions tallied.counted
            found).0)

  -- Where the parts are tallied and no callback waits, a session in the table with fewer parts than
  -- it needs is refused: the call raises `ValueError` with both numbers, and nothing changes.
  pub complete_upload_session_short :
      row.completed_parts < row.total_parts
      → complete_upload_session tx str_uuid session saved w ≡ (
        err (
            value_error (
              "Cannot complete session "
              ++ (str_uuid row.id
                  ++ (": received "
                      ++ (show row.completed_parts
                          ++ (" of " ++ (show row.total_parts ++ " parts."))))))),
        w,
      )
  unfolding complete_upload_session finish complete_refreshed
  complete_upload_session_short short =
      let less : ltb row.completed_parts row.total_parts ≡ true = ground arith in
      rw
        (
          tx.atomic_runs UploadSession
              (λ v. complete_refreshed str_uuid (find session_pk session.id v.db.sessions) saved v)
              w,
          found,
          count-eq,
          less,
        )
        refl

  -- Where the parts are tallied and no callback waits, a session in the table with as many parts
  -- as it needs completes, whatever state it is in: the call returns the row as COMPLETE, and the
  -- state is that of `finish_session`.
  pub complete_upload_session_enough :
      row.total_parts ≤ row.completed_parts
      → complete_upload_session tx str_uuid session saved w ≡ (
        ok (record row { status = SessionStatus.complete; updated_at = saved }),
        finish_session row saved w,
      )
  unfolding complete_upload_session finish complete_refreshed finish_session
  complete_upload_session_enough enough =
      let less : ltb row.completed_parts row.total_parts ≡ false = ground arith in
      rw
        (
          tx.atomic_runs UploadSession
              (λ v. complete_refreshed str_uuid (find session_pk session.id v.db.sessions) saved v)
              w,
          found,
          count-eq,
          less,
        )
        (ap
          (λ (v : World).
            (ok (record row { status = SessionStatus.complete; updated_at = saved }), v))
          (commit-Idle (finish_session row saved w) idle))

  -- Where the parts are tallied and no callback waits: if the call returns and the parts of the
  -- session have numbers from 1 to the number that it needs, then the session has a part with each
  -- of these numbers.
  pub complete_upload_session_covers :
      (answer : UploadSession) (number : ℕ)
      → (complete_upload_session tx str_uuid session saved w).0 ≡ ok answer
      → All (InRange row.id row.total_parts) w.db.parts
      → 0 < number
      → number ≤ row.total_parts
      → any (part_at row.id number) w.db.parts ≡ true
  complete_upload_session_covers answer number returned range pos le =
      elim (Bool-cases (ltb row.completed_parts row.total_parts)) [
        | inl e ↦
            let short : row.completed_parts < row.total_parts = ground arith in
            absurd (unequal returned (ap (λ r. r.0) (complete_upload_session_short short)))
        | inr e ↦
            All-present row.id row.total_parts number w.db.parts tallied.numbered range
              (ground (arith, own_count)) pos le
      ]
    where
      own_count : count_if (part_of row.id) w.db.parts ≡ row.completed_parts
      own_count = sym (
          (All-find session_pk (Counted w.db.parts) session.id w.db.sessions tallied.counted
            found).0)

      unequal :
          {s : UploadSession} {message : String} {r : Result UploadSession}
          → r ≡ ok s
          → r ≡ err (value_error message)
          → ⊥
      unequal p q = ground (arith, p, q)

  -- Where the parts are tallied and no callback waits, and the session has as many parts as it
  -- needs, its file becomes STORED if it was UPLOADING and keeps its status otherwise; no other
  -- file changes.
  pub complete_upload_session_file :
      (file : UploadFile)
      → row.total_parts ≤ row.completed_parts
      → find file_pk row.file w.db.files ≡ some file
      → let w' = (complete_upload_session tx str_uuid session saved w).1 in
        (find file_pk row.file w'.db.files
          ≡ some (
              if is_uploading file.status
              then record file { status = FileStatus.stored }
              else file))
        × ((other : ℕ)
            → (other == row.file) ≡ false
            → find file_pk other w'.db.files ≡ find file_pk other w.db.files)
  unfolding finish_session
  complete_upload_session_file file enough known =
      let step : UploadFile → UploadFile =
        λ f. if is_uploading f.status then record f { status = FileStatus.stored } else f in
      let same : (f : UploadFile) → (step f).id ≡ f.id = λ f. ground arith in
      rw (complete_upload_session_enough enough) (
        find-modify_self file_pk row.file step w.db.files same known,
        (λ other ne. find-modify_ne file_pk other row.file step w.db.files same ne),
      )
