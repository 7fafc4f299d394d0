-- ===== src/Frontend/Fresh.antt =====
-- What a request to the upload page needs of its surroundings so that no insertion is refused, and
-- that one file keeps it for the next.
use Prim.Native.String.{◌++◌ as ◌+++◌}
use mathlib.Core.List.{append-nil}
use doorito.Base.{
  ℕ, suc, ◌≤◌, ◌<◌, ◌≡◌, refl, sym, false, Bool, Option, none, String, List, [], ◌∷◌, ◌++◌, ◌==◌,
  ◌&&◌, ◌||◌, any, str_eq, arith,
}
use doorito.Base.Table.{has}
use doorito.World.{World, Result, Error, ok, err, validation_error}
use doorito.Common.Models.{OutboxEvent}
use doorito.Common.Transactions.{Transactions}
use doorito.Common.Outbox.Emit.{new_event, clashes, key_or_default}
use doorito.Common.Outbox.History.{Quiet}
use doorito.Portal.Models.{UploadFile}
use doorito.Portal.Files.{Platform, Settings, UploadedFile, validate_file}
use doorito.Portal.Create.{Draw, file_pk, failed_row, stored_row, create_upload_file}
use doorito.Portal.Storing.{row_of, event_of, create_upload_file_stored, create_upload_file_refused}
use doorito.Portal.Validation.{Validates, validate_file-Validates}

module _ (p : Platform) where
  -- The idempotency key of the event about a file with this draw.
  abbrev pub event_key : Draw → String
  event_key draw = "UploadFile" +++ (":" +++ p.str_uuid draw.id)

  -- Whether a row of the outbox excludes the event of a draw.
  abbrev pub blocks : Draw → OutboxEvent → Bool
  blocks draw row =
      (draw.event.id == row.id)
      || (str_eq "file.stored" row.event_type && str_eq (event_key draw) row.idempotency_key)

  -- The keys that are drawn are not in use.
  abbrev pub Free : Draw → World → Type 0
  Free draw w = (has file_pk draw.id w.db.files ≡ false) × (any (blocks draw) w.db.outbox ≡ false)

  -- Two draws have different keys, also as text.
  abbrev pub Apart : Draw → Draw → Type 0
  Apart d e =
      ((e.id == d.id) ≡ false)
      × ((e.event.id == d.event.id) ≡ false)
      × (str_eq (event_key e) (event_key d) ≡ false)

  -- The draws from the n-th on are free, and all draws are apart.
  pub record AreFresh (draws : ℕ → Draw) (n : ℕ) (w : World) : Type 0 where
    pub free : (i : ℕ) → n ≤ i → Free (draws i) w
    pub apart : (i j : ℕ) → i < j → Apart (draws i) (draws j)

-- What a call with a free draw did: it returned a row under the drawn key, and added it and at most
-- the event of this draw.
pub record Made (p : Platform) (draw : Draw) (r : Result UploadFile × World) (w : World)
    : Type 0 where
  pub row : UploadFile
  pub after : World
  pub extra : List OutboxEvent
  pub ran : r ≡ (ok row, after)
  pub row_added : after.db.files ≡ w.db.files ++ row ∷ []
  pub row_key : row.id ≡ draw.id
  pub events_added : after.db.outbox ≡ w.db.outbox ++ extra
  pub harmless : (d : Draw) → Apart p draw d → any (blocks p d) extra ≡ false
  pub calm : Quiet after

module _ (tx : Transactions) (p : Platform) (s : Settings) (user : Option ℕ) (file : UploadedFile)
    (batch : Option ℕ) (draw : Draw) (w : World) (q : Quiet w) (free : Free p draw w) where
  Made-stored :
      (content_type : String) (size_bytes : ℕ)
      → validate_file p s file none ≡ ok (content_type, size_bytes)
      → Made p draw (create_upload_file tx p s user file batch draw w) w
  unfolding stored_row new_event key_or_default clashes
  Made-stored content_type size_bytes valid =
      let row = row_of tx p s user file batch draw w content_type size_bytes in
      record {
        row = row;
        after = _;
        extra = event_of tx p s user file batch draw w row ∷ [];
        ran =
            create_upload_file_stored tx p s user file batch draw w content_type size_bytes q.0 q.1
              valid free.0 free.1;
        row_added = refl;
        row_key = refl;
        events_added = refl;
        harmless = λ d a. rw (a.1, a.2) refl;
        calm = q;
      }

  Made-refused :
      (message code : String)
      → validate_file p s file none ≡ err (validation_error message code)
      → Made p draw (create_upload_file tx p s user file batch draw w) w
  unfolding failed_row
  Made-refused message code bad = record {
    row = failed_row user file batch draw message;
    after = _;
    extra = [];
    ran = create_upload_file_refused tx p s user file batch draw w message code bad free.0;
    row_added = refl;
    row_key = refl;
    events_added = sym (append-nil w.db.outbox);
    harmless = λ d a. refl;
    calm = q;
  }

  Made-by :
      (r : Result (String × ℕ))
      → validate_file p s file none ≡ r
      → Validates p s file none r
      → Made p draw (create_upload_file tx p s user file batch draw w) w
  Made-by (ok (content_type, size_bytes)) e v = Made-stored content_type size_bytes e
  Made-by (err (validation_error message code)) e v = Made-refused message code e
  Made-by (err Error.integrity_error) e v = absurd v
  Made-by (err Error.not_updated) e v = absurd v
  Made-by (err Error.does_not_exist) e v = absurd v
  Made-by (err Error.zero_division) e v = absurd v
  Made-by (err (Error.value_error m)) e v = absurd v
  Made-by (err Error.broker_error) e v = absurd v
  Made-by (err Error.storage_error) e v = absurd v
  Made-by (err (Error.unexpected m)) e v = absurd v

  pub create_upload_file-Made : Made p draw (create_upload_file tx p s user file batch draw w) w
  create_upload_file-Made =
      Made-by (validate_file p s file none) refl (validate_file-Validates p s file none)

has-snoc :
    (k : ℕ) (row : UploadFile) (rows : List UploadFile)
    → has file_pk k rows ≡ false
    → (k == row.id) ≡ false
    → has file_pk k (rows ++ row ∷ []) ≡ false
has-snoc k row [] h e = rw e refl
has-snoc k row (r ∷ rows) h e = ground (arith, has-snoc k row rows)

any-append :
    (f : OutboxEvent → Bool) (xs ys : List OutboxEvent)
    → any f xs ≡ false
    → any f ys ≡ false
    → any f (xs ++ ys) ≡ false
any-append f [] ys h e = e
any-append f (x ∷ xs) ys h e = ground (arith, any-append f xs ys)

-- A file uses up its own draw and no other.
pub AreFresh-next :
    (p : Platform) (draws : ℕ → Draw) (n : ℕ) (r : Result UploadFile × World) (w : World)
    → AreFresh p draws n w
    → (m : Made p (draws n) r w) → AreFresh p draws (suc n) m.after
AreFresh-next p draws n r w fresh m = record {
  free = λ i le.
      let (no_row, no_event) = fresh.free i (omega (arith, le)) in
      let a = fresh.apart n i (omega (arith, le)) in
      (
        rw m.row_added (has-snoc (draws i).id m.row w.db.files no_row (rw m.row_key a.0)),
        rw m.events_added
            (any-append (blocks p (draws i)) w.db.outbox m.extra no_event (m.harmless (draws i) a)),
      );
  apart = fresh.apart;
}
