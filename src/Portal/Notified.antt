-- ===== src/Portal/Notified.antt =====
-- What a run of `notify_expiring_files` (portal/services/uploads.py) leaves behind: it announces each
-- expiring file, and never twice.
use Prim.Native.String.{◌++◌}
use doorito.Base.{
  ℕ, ◌≡◌, refl, Bool, true, false, String, List, [], ◌∷◌, ◌++◌ as append, ◌&&◌, ◌==◌, arith, All,
  any, length, str_eq, str_eq_refl, Bool-cases, inl, inr,
}
use doorito.Base.Table.{has}
use doorito.World.{World}
use doorito.Common.Models.{OutboxEvent}
use doorito.Common.Transactions.{Transactions}
use doorito.Common.Outbox.Emit
use doorito.Common.Outbox.Emit.{clashes, new_event, key_or_default}
use doorito.Common.Outbox.Rows.{event_pk}
use doorito.Common.Outbox.History.{Quiet}
use doorito.Portal.Models.{UploadFile}
use doorito.Portal.Files.{Platform}
use doorito.Portal.Noticed.{event_of, taken, announce, after_file, expected}

-- The event that announces the expiry of a file.
abbrev pub announces : Platform → UploadFile → OutboxEvent → Bool
announces p upload e =
    str_eq "file.expiring" e.event_type
    && str_eq ("UploadFile" ++ (":" ++ p.str_uuid upload.id)) e.idempotency_key

module _ (tx : Transactions) (p : Platform) (str_datetime : ℕ → String) (ttl_hours : ℕ)
    (draws : ℕ → Emit.Draw) where
  -- The draws are fresh primary keys: no row has one, and no two files draw the same.
  unfoldable pub Fresh : List UploadFile → List OutboxEvent → Type 0
  Fresh [] outbox = Unit
  Fresh (f ∷ fs) outbox =
      (has event_pk (draws f.id).id outbox ≡ false)
      × All (λ (g : UploadFile). ((draws g.id).id == (draws f.id).id) ≡ false) fs
      × Fresh fs outbox

  has-snoc :
      (k : ℕ) (e : OutboxEvent) (xs : List OutboxEvent)
      → has event_pk k xs ≡ false
      → (k == e.id) ≡ false
      → has event_pk k (append xs (e ∷ [])) ≡ false
  has-snoc k e [] h ne = ground arith
  has-snoc k e (x ∷ xs) h ne = ground (arith, has-snoc k e xs)

  Fresh-announce :
      (f : UploadFile) (fs : List UploadFile) (outbox : List OutboxEvent)
      → All (λ (g : UploadFile). ((draws g.id).id == (draws f.id).id) ≡ false) fs
      → Fresh fs outbox
      → Fresh fs (append outbox (event_of tx p str_datetime ttl_hours draws f ∷ []))
  unfolding Fresh event_of new_event
  Fresh-announce f [] outbox ne h = tt
  Fresh-announce f (g ∷ gs) outbox ne h = (
    has-snoc (draws g.id).id (event_of tx p str_datetime ttl_hours draws f) outbox h.0 ne.0,
    h.1,
    Fresh-announce f gs outbox ne.1 h.2,
  )

  -- With a fresh key, an event is refused only if the file has been announced.
  taken_announced :
      (f : UploadFile) (xs : List OutboxEvent)
      → has event_pk (draws f.id).id xs ≡ false
      → any (clashes (event_of tx p str_datetime ttl_hours draws f)) xs ≡ true
      → any (announces p f) xs ≡ true
  unfolding event_of new_event clashes key_or_default
  taken_announced f [] h c = cc
  taken_announced f (x ∷ xs) h c = ground (arith, taken_announced f xs)

  announced_taken :
      (f : UploadFile) (xs : List OutboxEvent)
      → any (announces p f) xs ≡ true
      → any (clashes (event_of tx p str_datetime ttl_hours draws f)) xs ≡ true
  unfolding event_of new_event clashes key_or_default
  announced_taken f [] c = cc
  announced_taken f (x ∷ xs) c = ground (arith, announced_taken f xs)

  any-snoc :
      (f : UploadFile) (e : OutboxEvent) (xs : List OutboxEvent)
      → any (announces p f) xs ≡ true
      → any (announces p f) (append xs (e ∷ [])) ≡ true
  any-snoc f e [] h = cc
  any-snoc f e (x ∷ xs) h = ground (arith, any-snoc f e xs)

  announced_now :
      (f : UploadFile) (xs : List OutboxEvent)
      → any (announces p f) (append xs (event_of tx p str_datetime ttl_hours draws f ∷ [])) ≡ true
  unfolding event_of new_event key_or_default
  announced_now f [] =
      ground
        (arith, str_eq_refl "file.expiring", str_eq_refl ("UploadFile" ++ (":" ++ p.str_uuid f.id)))
  announced_now f (x ∷ xs) = ground (arith, announced_now f xs)

  stays_announced :
      (f : UploadFile) (uploads : List UploadFile) (w : World)
      → any (announces p f) w.db.outbox ≡ true
      → any (announces p f) (expected tx p str_datetime ttl_hours draws uploads w).1.db.outbox
        ≡ true
  unfolding expected after_file announce
  stays_announced f [] w h = h
  stays_announced f (upload ∷ uploads) w h =
      elim (Bool-cases (taken tx p str_datetime ttl_hours draws upload w)) [
        | inl e ↦ rw e (stays_announced f uploads w h)
        | inr e ↦ rw e (
            stays_announced f uploads (announce tx p str_datetime ttl_hours draws upload w)
              (any-snoc f (event_of tx p str_datetime ttl_hours draws upload) w.db.outbox h))
      ]

  after_announced :
      (f : UploadFile) (w : World)
      → has event_pk (draws f.id).id w.db.outbox ≡ false
      → any (announces p f) (after_file tx p str_datetime ttl_hours draws f w).db.outbox ≡ true
  unfolding after_file announce taken
  after_announced f w h = elim (Bool-cases (taken tx p str_datetime ttl_hours draws f w)) [
    | inl e ↦ rw e (taken_announced f w.db.outbox h e)
    | inr e ↦ rw e (announced_now f w.db.outbox)
  ]

  after_Fresh :
      (f : UploadFile) (fs : List UploadFile) (w : World)
      → All (λ (g : UploadFile). ((draws g.id).id == (draws f.id).id) ≡ false) fs
      → Fresh fs w.db.outbox
      → Fresh fs (after_file tx p str_datetime ttl_hours draws f w).db.outbox
  unfolding after_file announce
  after_Fresh f fs w ne h = elim (Bool-cases (taken tx p str_datetime ttl_hours draws f w)) [
    | inl e ↦ rw e h
    | inr e ↦ rw e (Fresh-announce f fs w.db.outbox ne h)
  ]

  pub expected-announces :
      (uploads : List UploadFile) (w : World)
      → Fresh uploads w.db.outbox
      → All
          (λ f.
            any (announces p f) (expected tx p str_datetime ttl_hours draws uploads w).1.db.outbox
            ≡ true)
          uploads
  unfolding Fresh expected
  expected-announces [] w h = tt
  expected-announces (f ∷ fs) w h =
      let v = after_file tx p str_datetime ttl_hours draws f w in
      (
        stays_announced f fs v (after_announced f w h.0),
        expected-announces fs v (after_Fresh f fs w h.1 h.2),
      )

  pub expected_idle :
      (uploads : List UploadFile) (w : World)
      → All (λ f. any (announces p f) w.db.outbox ≡ true) uploads
      → expected tx p str_datetime ttl_hours draws uploads w
        ≡ (record { notified = 0; skipped = length uploads }, w)
  unfolding expected after_file taken
  expected_idle [] w h = refl
  expected_idle (upload ∷ uploads) w h =
      rw (announced_taken upload w.db.outbox h.0, expected_idle uploads w h.1) (ground arith)

  pub expected_keeps :
      (uploads : List UploadFile) (w : World)
      → Quiet w
      → Quiet (expected tx p str_datetime ttl_hours draws uploads w).1
        × ((expected tx p str_datetime ttl_hours draws uploads w).1.db.files ≡ w.db.files)
  unfolding expected after_file announce
  expected_keeps [] w q = (q, refl)
  expected_keeps (upload ∷ uploads) w q =
      elim (Bool-cases (taken tx p str_datetime ttl_hours draws upload w)) [
        | inl e ↦ rw e (expected_keeps uploads w q)
        | inr e ↦
            rw e (expected_keeps uploads (announce tx p str_datetime ttl_hours draws upload w) q)
      ]
