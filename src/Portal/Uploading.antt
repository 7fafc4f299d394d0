-- ===== src/Portal/Uploading.antt =====
-- The invariant of the sessions and their parts under the three services of
-- portal/services/sessions.py, and every history of them.
use doorito.Base.{
  ℕ, ◌≡◌, refl, sym, true, Option, none, some, String, [], ◌∷◌, ◌++◌, All, any, count_if, ◌==◌,
  ◌&&◌, ◌||◌, Bool-cases, inl, inr, ltb, not, Bool, false, arith,
}
use doorito.Base.Table.{find, has}
use doorito.World.{World, Database, Result, ok, err}
use doorito.Common.Transactions.{Transactions, finish, enter}
use doorito.Common.Outbox.Sweep.{Idle, commit-Idle}
use doorito.Portal.Models.{
  UploadFile, UploadSession, UploadPart, SessionStatus, PartStatus, is_received,
}
use doorito.Portal.Create.{file_pk}
use doorito.Portal.Sessions.{
  session_pk, chunk_or_default, insert_session, create_upload_session, insert_part, advance_session,
  record_upload_part, complete_upload_session, complete_refreshed, finish_session, part_received,
}
use doorito.Portal.Counters.{
  All-snoc, owned-snoc, owned-modify, unused, Counted-keep, Counted, Counted-advance, Numbered,
  Numbered-snoc, advance, count_of_none,
}

-- Neither test refuses the row.
neither : (b c : Bool) → (not b || c) ≡ false → (b ≡ true) × (c ≡ false)
neither true c h = (refl, h)
neither false c h = ground arith

-- The counters of every session agree with the parts, no session has two parts with one number, and
-- every part is received and belongs to a session.
pub record Tallied (db : Database) : Type 0 where
  pub counted : All (Counted db.parts) db.sessions
  pub numbered : Numbered db.parts
  pub owned : All (λ (q : UploadPart). has session_pk q.session db.sessions ≡ true) db.parts
  pub all_received : All (λ (q : UploadPart). is_received q.status ≡ true) db.parts

pub create_upload_session-Tallied :
    (ceil_div : ℕ → ℕ → ℕ) (file : UploadFile) (total_size_bytes : ℕ) (chunk_size_bytes : Option ℕ)
    (id saved : ℕ) (w : World)
    → Tallied w.db
    → Tallied
        (create_upload_session ceil_div file total_size_bytes chunk_size_bytes id saved w).1.db
unfolding create_upload_session insert_session
create_upload_session-Tallied ceil_div file total chunk_size id saved w t =
    let chunk = chunk_or_default chunk_size in
    let row : UploadSession = record {
      id = id;
      file = file.id;
      status = SessionStatus.init;
      chunk_size_bytes = chunk;
      total_size_bytes = total;
      total_parts = ceil_div total chunk;
      bytes_received = 0;
      completed_parts = 0;
      updated_at = saved;
    } in
    elim (Bool-cases (chunk == 0)) [
      | inl zero_chunk ↦ rw zero_chunk t
      | inr good ↦
          elim (Bool-cases (
            not (has file_pk row.file w.db.files)
            || any (λ (s : UploadSession). (row.id == s.id) || (row.file == s.file))
                w.db.sessions)) [
                  | inl clash ↦ rw (good, clash) t
                  | inr either ↦
                      let fresh = (neither _ _ either).1 in
                      let none_yet =
                        count_of_none id w.db.sessions w.db.parts (unused row w.db.sessions fresh)
                          t.owned in
                      rw (good, either)
                        (record {
                          counted =
                              All-snoc (Counted w.db.parts) row w.db.sessions
                                (sym none_yet.0, sym none_yet.1) t.counted;
                          numbered = t.numbered;
                          owned = owned-snoc row w.db.sessions w.db.parts t.owned;
                          all_received = t.all_received;
                        })
                ]
    ]

pub record_upload_part-Tallied :
    (session : UploadSession) (part_number offset_bytes size_bytes : ℕ) (sha256 : String) (id : ℕ)
    (w : World)
    → Tallied w.db
    → Tallied (record_upload_part session part_number offset_bytes size_bytes sha256 id w).1.db
unfolding record_upload_part insert_part advance_session
record_upload_part-Tallied session part_number offset_bytes size_bytes sha256 id w t =
    let row : UploadPart = record {
      id = id;
      session = session.id;
      part_number = part_number;
      offset_bytes = offset_bytes;
      size_bytes = size_bytes;
      sha256 = sha256;
      status = PartStatus.received;
    } in
    elim (Bool-cases (
      not (has session_pk row.session w.db.sessions)
      || any
          (λ (q : UploadPart).
            (row.id == q.id) || (row.session == q.session && row.part_number == q.part_number))
          w.db.parts)) [
            | inl clash ↦ rw clash t
            | inr either ↦
                let (known, fresh) = neither _ _ either in
                rw either (record {
                  counted = Counted-advance w.db.parts row w.db.sessions t.counted;
                  numbered = Numbered-snoc w.db.parts row fresh t.numbered;
                  owned =
                      owned-modify session.id (advance size_bytes) w.db.sessions
                        (w.db.parts ++ row ∷ []) (λ s. refl)
                        (All-snoc
                          (λ (q : UploadPart). has session_pk q.session w.db.sessions ≡ true) row
                          w.db.parts known t.owned);
                  all_received =
                      All-snoc (λ (q : UploadPart). is_received q.status ≡ true) row w.db.parts refl
                        t.all_received;
                })
          ]

complete_refreshed-Tallied :
    (str_uuid : ℕ → String) (found : Option UploadSession) (saved : ℕ) (w : World)
    → Tallied w.db
    → Tallied (complete_refreshed str_uuid found saved w).1.db
unfolding complete_refreshed finish_session
complete_refreshed-Tallied str_uuid none saved w t = t
complete_refreshed-Tallied str_uuid (some s) saved w t =
    elim (Bool-cases (ltb (count_if (part_received s.id) w.db.parts) s.total_parts)) [
      | inl short ↦ rw short t
      | inr enough ↦ rw enough (record {
        counted = Counted-keep w.db.parts s.id saved w.db.sessions t.counted;
        numbered = t.numbered;
        owned =
            owned-modify s.id
              (λ row. record row { status = SessionStatus.complete; updated_at = saved })
              w.db.sessions w.db.parts (λ x. refl) t.owned;
        all_received = t.all_received;
      })
    ]

-- The end of a block, without a waiting callback, changes nothing in a database or undoes it.
finish-Tallied :
    {A : Type 0} (w : World) (answer : Result A) (w' : World)
    → Idle w'
    → Tallied w.db
    → Tallied w'.db
    → Tallied (finish w (answer, w')).1.db
unfolding finish
finish-Tallied w (ok a) w' idle t t' = rw (commit-Idle (record w' { depth = w.depth }) idle) t'
finish-Tallied w (err e) w' idle t t' = t

complete_refreshed-Idle :
    (str_uuid : ℕ → String) (found : Option UploadSession) (saved : ℕ) (w : World)
    → Idle w
    → Idle (complete_refreshed str_uuid found saved w).1
unfolding complete_refreshed finish_session
complete_refreshed-Idle str_uuid none saved w h = h
complete_refreshed-Idle str_uuid (some s) saved w h =
    elim (Bool-cases (ltb (count_if (part_received s.id) w.db.parts) s.total_parts)) [
      | inl short ↦ rw short h
      | inr enough ↦ rw enough h
    ]

pub complete_upload_session-Tallied :
    (tx : Transactions) (str_uuid : ℕ → String) (session : UploadSession) (saved : ℕ) (w : World)
    → Idle w
    → Tallied w.db
    → Tallied (complete_upload_session tx str_uuid session saved w).1.db
unfolding complete_upload_session
complete_upload_session-Tallied tx str_uuid session saved w idle t =
    let found = find session_pk session.id w.db.sessions in
    let (answer, w') = complete_refreshed str_uuid found saved (enter w) in
    rw
      (tx.atomic_runs UploadSession
        (λ v. complete_refreshed str_uuid (find session_pk session.id v.db.sessions) saved v) w)
      (finish-Tallied w answer w' (complete_refreshed-Idle str_uuid found saved (enter w) idle) t
        (complete_refreshed-Tallied str_uuid found saved (enter w) t))

finish-Idle :
    {A : Type 0} (w : World) (answer : Result A) (w' : World)
    → Idle w
    → Idle w'
    → Idle (finish w (answer, w')).1
unfolding finish
finish-Idle w (ok a) w' h idle = rw (commit-Idle (record w' { depth = w.depth }) idle) idle
finish-Idle w (err e) w' h idle = h

pub complete_upload_session-Idle :
    (tx : Transactions) (str_uuid : ℕ → String) (session : UploadSession) (saved : ℕ) (w : World)
    → Idle w
    → Idle (complete_upload_session tx str_uuid session saved w).1
unfolding complete_upload_session
complete_upload_session-Idle tx str_uuid session saved w idle =
    let found = find session_pk session.id w.db.sessions in
    let (answer, w') = complete_refreshed str_uuid found saved (enter w) in
    rw
      (tx.atomic_runs UploadSession
        (λ v. complete_refreshed str_uuid (find session_pk session.id v.db.sessions) saved v) w)
      (finish-Idle w answer w' idle (complete_refreshed-Idle str_uuid found saved (enter w) idle))
