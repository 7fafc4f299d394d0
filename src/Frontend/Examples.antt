-- ===== src/Frontend/Examples.antt =====
-- Requests to the upload page: one that is refused, and a batch of two files, one of them too large.
use doorito.Base.{ℕ, ◌≡◌, refl, false, none, some, List, [], ◌∷◌, length}
use doorito.Base.Text.{show}
use doorito.World.{World, ok}
use doorito.Common.Sample.{empty}
use doorito.Common.Transactions.{documented, finish, register}
use doorito.Common.Outbox.Emit.{emit_event}
use doorito.Portal.Models.{UploadBatch, UploadFile, partial}
use doorito.Portal.Files.{Platform, Settings, UploadedFile, settings, concat}
use doorito.Portal.Create.{Draw, failed_row, stored_row}
use doorito.Frontend.Http.{HttpRequest, FormData, Method, Level, Response}
use doorito.Frontend.Upload.{Draws, upload_batch, upload_view}

abbrev pub platform : Platform
platform = record {
  guess_type = λ name. some "text/plain";
  chunks = λ n content. content ∷ [];
  sha256 = λ pieces. show (length (concat pieces));
  url = λ path. path;
  str_uuid = show;
}

abbrev pub tight : Settings
tight = record settings { file_upload_max_size = 2 }

abbrev pub small : UploadedFile
small = record { name = "s.txt"; size = 1; content = 97 ∷ []; position = 0 }

abbrev pub large : UploadedFile
large = record { name = "l.txt"; size = 3; content = 97 ∷ 98 ∷ 99 ∷ []; position = 0 }

abbrev pub file_draw : ℕ → Draw
file_draw n = record {
  id = n;
  path = "uploads/x";
  saved = 150;
  event = record { id = n; now = 151; saved = 152 };
}

abbrev pub draws : Draws
draws = record { batch_id = 4; created = 100; finalized = 200; file = file_draw }

abbrev batch : UploadBatch
batch = record {
  id = 4;
  created_by = some 1;
  status = partial;
  idempotency_key = "";
  created_at = 100;
  updated_at = 200;
}

abbrev results : List UploadFile
results =
    stored_row (some 1) small (some 4) (file_draw 0) "text/plain" 1 "1"
    ∷ failed_row (some 1) large (some 4) (file_draw 1)
        "File size 3 bytes exceeds maximum of 2 bytes."
    ∷ []

abbrev after : World
after = (upload_batch documented platform tight draws (some 1) (small ∷ large ∷ []) empty).1

uploaded :
    upload_batch documented platform tight draws (some 1) (small ∷ large ∷ []) empty
    ≡ (ok (batch, results), after)
unfolding upload_batch finish emit_event register show
uploaded = refl

abbrev pub no_fields : FormData
no_fields = record {
  username = "";
  email = "";
  password = "";
  password1 = "";
  password2 = "";
  remember_me = false;
  next = none;
}

abbrev nothing_chosen : HttpRequest
nothing_chosen = record {
  method = Method.post;
  session = record { user = some 1; expiry = none };
  htmx = false;
  full_path = "/app/upload/";
  query_next = none;
  form = no_fields;
  files = [];
}

upload_refused :
    (upload_view documented platform tight draws (λ path. path) nothing_chosen empty).0
    ≡ ok (Response.message_and_redirect Level.error "No files selected.")
unfolding upload_view
upload_refused = refl
