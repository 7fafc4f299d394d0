-- ===== src/Portal/Recording.antt =====
-- A part that arrives (portal/services/sessions.py): the usual case, one sent twice, and one that
-- comes after the completion.
use doorito.Base.{
  ℕ, ◌+◌, ◌≤◌, ◌≡◌, refl, ◌∙◌, ap, true, false, some, String, List, [], ◌∷◌, ◌++◌ as append, arith,
  any, ◌==◌, ◌&&◌, ◌||◌, Bool-cases, inl, inr,
}
use doorito.Base.Table.{find, has, find-has, modify, find-modify_self, find-modify_ne, find-key}
use doorito.World.{World, ok, err, integrity_error}
use doorito.Common.Transactions.{Transactions}
use doorito.Common.Outbox.Sweep.{Idle}
use doorito.Portal.Models.{UploadSession, UploadPart, SessionStatus, PartStatus}
use doorito.Portal.Sessions.{
  session_pk, insert_part, advance_session, record_upload_part, complete_upload_session,
  finish_session,
}
use doorito.Portal.Counters.{advance}
use doorito.Portal.Uploading.{Tallied}
use doorito.Portal.Covering.{part_at}
use doorito.Portal.Completion.{complete_upload_session_enough}

-- A part with a key and a number of its own, for a session in the table: the part is returned and
-- inserted as received, and the session counts it and is IN_PROGRESS, also if it was COMPLETE; no
-- other session and no file changes.
pub record_upload_part_row :
    (session row : UploadSession) (number offset size : ℕ) (sha256 : String) (id : ℕ) (w : World)
    → find session_pk session.id w.db.sessions ≡ some row
    → any
        (λ (q : UploadPart). (id == q.id) || (session.id == q.session && number == q.part_number))
        w.db.parts
      ≡ false
    → let part : UploadPart = record {
      id = id;
      session = session.id;
      part_number = number;
      offset_bytes = offset;
      size_bytes = size;
      sha256 = sha256;
      status = PartStatus.received;
    } in
      let (answer, w') = record_upload_part session number offset size sha256 id w in
      (answer ≡ ok part)
      × (w'.db.parts ≡ append w.db.parts (part ∷ []))
      × (find session_pk session.id w'.db.sessions
          ≡ some (record row {
            completed_parts = row.completed_parts + 1;
            bytes_received = row.bytes_received + size;
            status = SessionStatus.in_progress;
          }))
      × ((other : ℕ)
          → (other == session.id) ≡ false
          → find session_pk other w'.db.sessions ≡ find session_pk other w.db.sessions)
      × (w'.db.files ≡ w.db.files)
unfolding record_upload_part insert_part advance_session
record_upload_part_row session row number offset size sha256 id w found fresh =
    let known = find-has session_pk session.id w.db.sessions found in
    rw (known, fresh)
      (
        refl,
        refl,
        find-modify_self session_pk session.id (advance size) w.db.sessions (λ s. refl) found,
        (λ other ne.
            find-modify_ne session_pk other session.id (advance size) w.db.sessions (λ s. refl) ne),
        refl,
      )

-- A part whose number the session already has is an `IntegrityError`, and nothing changes.
pub record_upload_part_twice :
    (session : UploadSession) (number offset size : ℕ) (sha256 : String) (id : ℕ) (w : World)
    → any (part_at session.id number) w.db.parts ≡ true
    → record_upload_part session number offset size sha256 id w ≡ (err integrity_error, w)
unfolding record_upload_part insert_part
record_upload_part_twice session number offset size sha256 id w taken =
    let clashes = clash session.id number id w.db.parts taken in
    elim (Bool-cases (has session_pk session.id w.db.sessions)) [
      | inl known ↦ rw (known, clashes) refl
      | inr missing ↦ rw missing refl
    ]
  where
    clash :
        (k number id : ℕ) (qs : List UploadPart)
        → any (part_at k number) qs ≡ true
        → any (λ (q : UploadPart). (id == q.id) || (k == q.session && number == q.part_number)) qs
          ≡ true
    clash k number id [] h = cc
    clash k number id (q ∷ qs) h = ground (arith, clash k number id qs)

-- Where the parts are tallied and no callback waits: after a session has completed, a further part
-- under a fresh key and number makes it IN_PROGRESS again, with one part more than before, while
-- its file stays as the completion left it.
pub record_reopens :
    (tx : Transactions) (str_uuid : ℕ → String) (session row : UploadSession)
    (saved number offset size : ℕ) (sha256 : String) (id : ℕ) (w : World)
    → Idle w
    → Tallied w.db
    → find session_pk session.id w.db.sessions ≡ some row
    → row.total_parts ≤ row.completed_parts
    → any
        (λ (q : UploadPart). (id == q.id) || (session.id == q.session && number == q.part_number))
        w.db.parts
      ≡ false
    → let done = (complete_upload_session tx str_uuid session saved w).1 in
      let after = (record_upload_part session number offset size sha256 id done).1 in
      (find session_pk session.id done.db.sessions
        ≡ some (record row { status = SessionStatus.complete; updated_at = saved }))
      × (find session_pk session.id after.db.sessions
          ≡ some (record row {
            status = SessionStatus.in_progress;
            updated_at = saved;
            completed_parts = row.completed_parts + 1;
            bytes_received = row.bytes_received + size;
          }))
      × (after.db.files ≡ done.db.files)
unfolding finish_session
record_reopens tx str_uuid session row saved number offset size sha256 id w idle tallied found
      enough fresh =
    let done = finish_session row saved w in
    let close : UploadSession → UploadSession =
      λ s. record s { status = SessionStatus.complete; updated_at = saved } in
    let closed : UploadSession = close row in
    let same : row.id ≡ session.id = find-key session_pk session.id w.db.sessions found in
    let completed : find session_pk session.id done.db.sessions ≡ some closed =
      ap (λ (k : ℕ). find session_pk session.id (modify session_pk k close w.db.sessions)) same
      ∙ find-modify_self session_pk session.id close w.db.sessions (λ s. refl) found in
    let recorded =
      record_upload_part_row session closed number offset size sha256 id done completed fresh in
    rw (complete_upload_session_enough tx str_uuid session row saved w idle tallied found enough)
      (completed, recorded.2, recorded.4)
