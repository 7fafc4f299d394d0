-- ===== src/Frontend/Framing.antt =====
-- That the upload page (frontend/views/upload.py) leaves the table of users alone.
use doorito.Base.{
  ℕ, zero, suc, ◌≡◌, refl, ◌∙◌, Option, none, some, String, List, [], ◌∷◌, any, length, ltb, ◌==◌,
  Bool-cases, inl, inr,
}
use doorito.Base.Table.{has}
use doorito.World.{World, Action, Result, Error, ok, err, validation_error, continue, pure, ◌>>=◌}
use doorito.Common.Models.{Payload}
use doorito.Common.Utils.{dispatch, safe_dispatch, delay}
use doorito.Common.Transactions.{Transactions, enter, finish, commit, run_hooks, register}
use doorito.Common.Outbox.Emit
use doorito.Common.Outbox.Emit.{emit_event, new_event, clashes}
use doorito.Common.Outbox.Emission.{emit_event_outcome, with_event}
use doorito.Portal.Models.{UploadFile, UploadBatch}
use doorito.Portal.Files.{Platform, Settings, UploadedFile, validate_file, compute_sha256}
use doorito.Portal.Create.{
  Draw, file_pk, batch_pk, create_file, failed_row, stored_row, stored_payload, store_and_emit,
  after_validation, create_upload_file, create_batch,
}
use doorito.Portal.Batches.{save_batch, finalize_body, finalize_batch}
use doorito.Frontend.Http.{HttpRequest, Method, get, post, other}
use doorito.Frontend.Decorators.{by_user, frontend_login_required}
use doorito.Frontend.Upload.{
  Draws, upload_each, upload_batch, upload_files, upload_view, by_method, respond,
  max_files_per_request,
}

abbrev pub Keeps : {A : Type 0} → Action A → Type 0
Keeps m = (w : World) → (m w).1.db.users ≡ w.db.users

continue_users :
    {A B : Type 0} (k : A → Action B) (w : World) (r : Result A × World)
    → ((a : A) → Keeps (k a))
    → r.1.db.users ≡ w.db.users
    → (continue r k).1.db.users ≡ w.db.users
continue_users k w (ok a, v) hk same = hk a v ∙ same
continue_users k w (err e, v) hk same = same

pub chain-Keeps :
    {A B : Type 0} (m : Action A) (k : A → Action B)
    → Keeps m
    → ((a : A) → Keeps (k a))
    → Keeps (m >>= k)
chain-Keeps m k h hk w = continue_users k w (m w) hk (h w)

dispatch_users : (w : World) → (dispatch w).1.db.users ≡ w.db.users
unfolding dispatch safe_dispatch delay
dispatch_users w = elim (Bool-cases w.broker_up) [ inl up ↦ rw up refl | inr down ↦ rw down refl ]

run_hooks_users : (n : ℕ) (w : World) → (run_hooks n w).db.users ≡ w.db.users
unfolding run_hooks
run_hooks_users zero w = refl
run_hooks_users (suc n) w = run_hooks_users n (dispatch w).1 ∙ dispatch_users w

commit_users : (w : World) → (commit w).db.users ≡ w.db.users
unfolding commit
commit_users w = elim (Bool-cases (w.depth == 0)) [
  | inl outermost ↦ rw outermost (run_hooks_users w.hooks (record w { hooks = 0 }))
  | inr inner ↦ rw inner refl
]

register_users : (w : World) → (register w).db.users ≡ w.db.users
unfolding register
register_users w = elim (Bool-cases (w.depth == 0)) [
  | inl outside ↦ rw outside (dispatch_users w)
  | inr inside ↦ rw inside refl
]

finish_users :
    {A : Type 0} (w : World) (r : Result A × World)
    → r.1.db.users ≡ w.db.users
    → (finish w r).1.db.users ≡ w.db.users
unfolding finish
finish_users w (ok a, v) same = commit_users (record v { depth = w.depth }) ∙ same
finish_users w (err e, v) same = refl

module _ (tx : Transactions) where
  atomic-Keeps : (A : Type 0) (m : Action A) → Keeps m → Keeps (tx.atomic A m)
  atomic-Keeps A m h w = rw (tx.atomic_runs A m w) (finish_users w (m (enter w)) (h (enter w)))

  emit_event-Keeps :
      (type id event_type : String) (payload : Option Payload) (key : Option String)
      (draw : Emit.Draw)
      → Keeps (emit_event tx type id event_type payload key draw)
  emit_event-Keeps type id event_type payload key draw w =
      let new = new_event type id event_type payload key draw in
      rw (emit_event_outcome tx type id event_type payload key draw w)
        (elim (Bool-cases (any (clashes new) w.db.outbox)) [
          | inl clash ↦ rw clash refl
          | inr clear ↦ rw clear (register_users (with_event new w))
        ])

  create_file-Keeps : (row : UploadFile) → Keeps (create_file row)
  unfolding create_file
  create_file-Keeps row w = elim (Bool-cases (has file_pk row.id w.db.files)) [
    | inl taken ↦ rw taken refl
    | inr unused ↦ rw unused refl
  ]

  create_batch-Keeps :
      (user : Option ℕ) (key : String) (id saved : ℕ) → Keeps (create_batch user key id saved)
  unfolding create_batch
  create_batch-Keeps user key id saved w = elim (Bool-cases (has batch_pk id w.db.batches)) [
    | inl taken ↦ rw taken refl
    | inr unused ↦ rw unused refl
  ]

  finalize_batch-Keeps : (batch : UploadBatch) (saved : ℕ) → Keeps (finalize_batch tx batch saved)
  unfolding finalize_batch finalize_body save_batch
  finalize_batch-Keeps batch saved = atomic-Keeps UploadBatch (finalize_body batch saved) (λ w.
      elim (Bool-cases (has batch_pk batch.id w.db.batches)) [
        | inl there ↦ rw there refl
        | inr gone ↦ rw gone refl
      ])

  module _ (p : Platform) (s : Settings) where
    store_and_emit-Keeps :
        (row : UploadFile) (draw : Emit.Draw) → Keeps (store_and_emit tx p s row draw)
    unfolding store_and_emit
    store_and_emit-Keeps row draw =
        chain-Keeps (create_file row) _ (create_file-Keeps row) (λ upload.
          chain-Keeps
            (emit_event tx "UploadFile" (p.str_uuid upload.id) "file.stored"
              (some (stored_payload p upload)) none draw)
            _
            (emit_event-Keeps "UploadFile" (p.str_uuid upload.id) "file.stored"
              (some (stored_payload p upload)) none draw)
            (λ _ w. refl))

    after_validation-Keeps :
        (user : Option ℕ) (file : UploadedFile) (batch : Option ℕ) (draw : Draw)
        (r : Result (String × ℕ))
        → Keeps (after_validation tx p s user file batch draw r)
    after_validation-Keeps user file batch draw (ok (content_type, size_bytes)) =
        let (sha256, file') = compute_sha256 p file in
        let row = stored_row user file' batch draw content_type size_bytes sha256 in
        atomic-Keeps UploadFile (store_and_emit tx p s row draw.event)
          (store_and_emit-Keeps row draw.event)
    after_validation-Keeps user file batch draw (err (validation_error message code)) =
        create_file-Keeps (failed_row user file batch draw message)
    after_validation-Keeps user file batch draw (err Error.integrity_error) = λ w. refl
    after_validation-Keeps user file batch draw (err Error.not_updated) = λ w. refl
    after_validation-Keeps user file batch draw (err Error.does_not_exist) = λ w. refl
    after_validation-Keeps user file batch draw (err Error.zero_division) = λ w. refl
    after_validation-Keeps user file batch draw (err (Error.value_error m)) = λ w. refl
    after_validation-Keeps user file batch draw (err Error.broker_error) = λ w. refl
    after_validation-Keeps user file batch draw (err Error.storage_error) = λ w. refl
    after_validation-Keeps user file batch draw (err (Error.unexpected m)) = λ w. refl

    module _ (draws : Draws) where
      each-Keeps :
          (user : Option ℕ) (batch : UploadBatch) (n : ℕ) (files : List UploadedFile)
          → Keeps (upload_each tx p s draws user batch n files)
      unfolding upload_each create_upload_file
      each-Keeps user batch n [] = λ w. refl
      each-Keeps user batch n (f ∷ fs) =
          chain-Keeps (create_upload_file tx p s user f (some batch.id) (draws.file n)) _
            (after_validation-Keeps user f (some batch.id) (draws.file n)
              (validate_file p s f none))
            (λ upload.
              chain-Keeps (upload_each tx p s draws user batch (suc n) fs) _
                (each-Keeps user batch (suc n) fs) (λ results w. refl))

      batch-Keeps :
          (user : Option ℕ) (files : List UploadedFile)
          → Keeps (upload_batch tx p s draws user files)
      unfolding upload_batch
      batch-Keeps user files =
          chain-Keeps (create_batch user "" draws.batch_id draws.created) _
            (create_batch-Keeps user "" draws.batch_id draws.created)
            (λ batch.
              chain-Keeps (upload_each tx p s draws user batch 0 files) _
                (each-Keeps user batch 0 files)
                (λ results.
                  chain-Keeps (finalize_batch tx batch draws.finalized) _
                    (finalize_batch-Keeps batch draws.finalized) (λ final w. refl)))

      files-Keeps : (request : HttpRequest) → Keeps (upload_files tx p s draws request)
      unfolding upload_files
      files-Keeps request w = elim (Bool-cases (length request.files == 0)) [
        | inl nothing ↦ rw nothing refl
        | inr something ↦ elim (Bool-cases (ltb max_files_per_request (length request.files))) [
          | inl many ↦ rw (something, many) refl
          | inr few ↦
              rw (something, few)
                (chain-Keeps (upload_batch tx p s draws request.session.user request.files)
                  (λ r. pure (respond request.htmx r.0 r.1))
                  (batch-Keeps request.session.user request.files) (λ r w. refl) w)
        ]
      ]

      method-Keeps : (m : Method) (request : HttpRequest) → Keeps (by_method tx p s draws m request)
      method-Keeps get request w = refl
      method-Keeps post request w = files-Keeps request w
      method-Keeps other request w = refl

      user-Keeps :
          (urlencode : String → String) (user : Option ℕ) (request : HttpRequest)
          → Keeps (
              by_user urlencode
                (λ request. by_method tx p s draws request.method request)
                user
                request)
      user-Keeps urlencode none request w = refl
      user-Keeps urlencode (some user) request w = method-Keeps request.method request w

      pub upload_view-Keeps :
          (urlencode : String → String) (request : HttpRequest)
          → Keeps (upload_view tx p s draws urlencode request)
      unfolding upload_view frontend_login_required
      upload_view-Keeps urlencode request = user-Keeps urlencode request.session.user request
