-- ===== src/Portal/Expired.antt =====
-- What `cleanup_expired_upload_files_task` (portal/tasks.py) deletes, keeps and reports.
use doorito.Base.{
  ℕ, ◌+◌, ◌-◌, ◌≡◌, refl, sym, ◌∙◌, ap, Bool, true, false, String, List, [], ◌∷◌, arith, count_if,
  length, filter, not, elem, min, ◌==◌, Bool-cases, inl, inr,
}
use doorito.Base.Table.{Keyed}
use doorito.Base.Batch.{count_if-first_pks, among-first_pks, count_if-filter-not, filter-filter-not}
use doorito.Base.Sorting.{sort_by}
use doorito.World.Actions.{continue-db, continue-ok}
use doorito.World.{World, Database, Action, Error, Result, ok, err, continue, pure, ◌>>=◌}
use doorito.Portal.Models.{UploadFile}
use doorito.Portal.Files.{Settings}
use doorito.Portal.Create.{file_pk}
use doorito.Portal.Notify.{latest_first}
use doorito.Portal.Expiry.{
  Deletion, removed, not_found, refused, batch_size, is_expired, discard, delete_content,
  delete_contents, goes_session, gone_sessions, goes_part, delete_batch, Removal, expired_pks,
  delete_expired, cleanup_expired_upload_files_task,
}

abbrev pub is_refused : Deletion → Bool
is_refused refused = true
is_refused _ = false

length-filter-not {ℓ} :
    {A : Type ℓ} (p : A → Bool) (xs : List A)
    → length (filter (λ x. not (p x)) xs) + count_if p xs ≡ length xs
length-filter-not p [] = refl
length-filter-not p (x ∷ xs) = ground (arith, length-filter-not p xs)

discard-db : (d : Deletion) (path : String) (w : World) → (discard d path w).1.db ≡ w.db
unfolding discard
discard-db removed path w = refl
discard-db not_found path w = refl
discard-db refused path w = refl

discard-ok :
    (d : Deletion) (path : String) (w : World) → is_refused d ≡ false → (discard d path w).0 ≡ ok tt
unfolding discard
discard-ok removed path w h = refl
discard-ok not_found path w h = refl
discard-ok refused path w h = cc

-- If what follows cannot raise, a raise is that of the first part.
stopped :
    {A : Type 0} (k : A → Action Removal) (r : Result A × World) (d : Database) (e : Error)
    → ((a : A) (v : World) → (x : Removal) × ((k a v).0 ≡ ok x))
    → r.1.db ≡ d
    → (continue r k).0 ≡ err e
    → (continue r k).1.db ≡ d
stopped k (ok a, v) d e total same raised =
    let (x, done) = total a v in absurd (apart (sym done ∙ raised))
  where
    apart : {x : Removal} → ok x ≡ err e → ⊥
    apart h = ground (arith, h)
stopped k (err f, v) d e total same raised = same

-- The loop over the files touches no table.
delete_contents-db :
    (storage : String → Deletion) (fs : List UploadFile) (w : World)
    → (delete_contents storage fs w).1.db ≡ w.db
unfolding delete_contents delete_content
delete_contents-db storage [] w = refl
delete_contents-db storage (f ∷ fs) w =
    continue-db (λ _. delete_contents storage fs >>= λ n. pure (n + 1)) (delete_content storage f w)
      w.db (discard-db (storage f.file) f.file w)
      (λ _ v same.
        continue-db (λ n. pure (n + 1)) (delete_contents storage fs v) w.db
          (delete_contents-db storage fs v ∙ same) (λ n u eq. eq))

delete_contents-ok :
    (storage : String → Deletion) (fs : List UploadFile) (w : World)
    → ((path : String) → is_refused (storage path) ≡ false)
    → (delete_contents storage fs w).0 ≡ ok (length fs)
unfolding delete_contents delete_content
delete_contents-ok storage [] w h = refl
delete_contents-ok storage (f ∷ fs) w h =
    let v = (delete_content storage f w).1 in
    ap (λ (r : Result ℕ × World). r.0)
      (continue-ok (λ _. delete_contents storage fs >>= λ n. pure (n + 1))
          (delete_content storage f w) tt (discard-ok (storage f.file) f.file w (h f.file))
        ∙ continue-ok (λ n. pure (n + 1)) (delete_contents storage fs v) (length fs)
            (delete_contents-ok storage fs v h))
    ∙ ap (λ (n : ℕ). ok n) (omega arith)

-- The rows that go with these files, in all three tables, and what is left.
row_count : List ℕ → Database → ℕ
row_count pks db =
    count_if (λ (f : UploadFile). elem f.id pks) db.files
    + count_if (goes_session pks) db.sessions
    + count_if (goes_part (gone_sessions pks db.sessions)) db.parts

without : List ℕ → Database → Database
without pks db = record db {
  files = filter (λ (f : UploadFile). not (elem f.id pks)) db.files;
  sessions = filter (λ s. not (goes_session pks s)) db.sessions;
  parts = filter (λ q. not (goes_part (gone_sessions pks db.sessions) q)) db.parts;
}

delete_expired-eq :
    (storage : String → Deletion) (total : ℕ) (pks : List ℕ) (batch : List UploadFile) (w : World)
    → ((path : String) → is_refused (storage path) ≡ false)
    → let (answer, after) = delete_expired storage total pks batch w in
      (answer
        ≡ ok (record { deleted = row_count pks w.db; remaining = total - row_count pks w.db }))
      × (after.db ≡ without pks w.db)
unfolding delete_expired delete_batch row_count without
delete_expired-eq storage total pks batch w h =
    let v = (delete_contents storage batch w).1 in
    let same = delete_contents-db storage batch w in
    let count_all : ℕ → Action Removal =
      λ _. delete_batch pks >>= λ n. pure (record { deleted = n; remaining = total - n }) in
    let run =
      continue-ok count_all (delete_contents storage batch w) (length batch)
        (delete_contents-ok storage batch w h) in
    (
      ap (λ (r : Result Removal × World). r.0) run
          ∙ ap
              (λ (db : Database).
                ok (record { deleted = row_count pks db; remaining = total - row_count pks db }))
              same,
      ap (λ (r : Result Removal × World). r.1.db) run ∙ ap (without pks) same,
    )

module _ (s : Settings) (storage : String → Deletion) (now : ℕ) (w : World) where
  abbrev expired : UploadFile → Bool
  expired = is_expired s.file_upload_ttl_hours now

  abbrev pub Expires : Result Removal × World → Type 0
  Expires (answer, after) =
      let expired : UploadFile → Bool = is_expired s.file_upload_ttl_hours now in
      let cascaded =
        (length w.db.sessions - length after.db.sessions)
        + (length w.db.parts - length after.db.parts) in
      (r : Removal) × (answer ≡ ok r)
      × (r.deleted ≡ min 1000 (count_if expired w.db.files) + cascaded)
      × (count_if expired after.db.files ≡ count_if expired w.db.files - 1000)
      × (r.remaining ≡ count_if expired after.db.files - cascaded)
      × (filter (λ f. not (expired f)) after.db.files ≡ filter (λ f. not (expired f)) w.db.files)

  without-facts :
      Keyed file_pk w.db.files
      → let pks = expired_pks s.file_upload_ttl_hours now w.db.files in
        let left = without pks w.db in
        let cascaded =
          (length w.db.sessions - length left.sessions) + (length w.db.parts - length left.parts) in
        (row_count pks w.db ≡ min 1000 (count_if expired w.db.files) + cascaded)
        × (count_if expired left.files ≡ count_if expired w.db.files - 1000)
        × (filter (λ f. not (expired f)) left.files ≡ filter (λ f. not (expired f)) w.db.files)
  unfolding expired_pks row_count without
  without-facts d =
      let files = w.db.files in
      let pks = expired_pks s.file_upload_ttl_hours now files in
      let gone = count_if-first_pks file_pk expired batch_size files d in
      let only = among-first_pks file_pk expired batch_size files d in
      let left = count_if-filter-not expired (λ f. elem f.id pks) files only in
      let rest = filter-filter-not expired (λ f. elem f.id pks) files only in
      let sessions = length-filter-not (goes_session pks) w.db.sessions in
      let parts = length-filter-not (goes_part (gone_sessions pks w.db.sessions)) w.db.parts in
      (omega (arith, gone, sessions, parts), omega (arith, gone, left), rest)

  -- With distinct primary keys and a storage that refuses nothing, the task returns; at most 1000
  -- expired files go, and no other; `deleted` also counts the sessions and parts that go with
  -- them, and `remaining` is too low by as much: the expired files that are left, less these rows.
  pub cleanup_expired-Expires :
      Keyed file_pk w.db.files
      → ((path : String) → is_refused (storage path) ≡ false)
      → Expires (cleanup_expired_upload_files_task s storage now w)
  unfolding cleanup_expired_upload_files_task
  cleanup_expired-Expires d allowed =
      let total = count_if expired w.db.files in
      let pks = expired_pks s.file_upload_ttl_hours now w.db.files in
      let batch = sort_by latest_first (filter (λ (f : UploadFile). elem f.id pks) w.db.files) in
      elim (Bool-cases (total == 0)) [
        | inl none_expired ↦ rw none_expired (
          record { deleted = 0; remaining = 0 },
          refl,
          ground arith,
          ground arith,
          ground arith,
          refl,
        )
        | inr some_expired ↦
            let (answer, db) = delete_expired-eq storage total pks batch w allowed in
            let (count, left, rest) = without-facts d in
            rw (some_expired, db)
              (
                record { deleted = row_count pks w.db; remaining = total - row_count pks w.db },
                answer,
                count,
                left,
                omega (arith, count, left),
                rest,
              )
      ]

  -- If the task raises, every table is as it was, whatever content has been removed before.
  pub cleanup_expired_raises :
      (e : Error)
      → (cleanup_expired_upload_files_task s storage now w).0 ≡ err e
      → (cleanup_expired_upload_files_task s storage now w).1.db ≡ w.db
  unfolding cleanup_expired_upload_files_task delete_expired delete_batch
  cleanup_expired_raises e raised =
      let total = count_if expired w.db.files in
      let pks = expired_pks s.file_upload_ttl_hours now w.db.files in
      let batch = sort_by latest_first (filter (λ (f : UploadFile). elem f.id pks) w.db.files) in
      elim (Bool-cases (total == 0)) [
        | inl none_expired ↦ rw none_expired refl
        | inr some_expired ↦ rw some_expired (
            stopped
              (λ _. delete_batch pks >>= λ n. pure (record { deleted = n; remaining = total - n }))
              (delete_contents storage batch w) w.db e (λ n v. (_, refl))
              (delete_contents-db storage batch w) (rw some_expired at raised))
      ]
