-- ===== src/Portal/Files.antt =====
-- `validate_file` and `compute_sha256` of portal/services/uploads.py, and the libraries that they call.
use Prim.Native.String.{◌++◌}
use doorito.Base.{
  ℕ, ◌≡◌, Bool, Option, none, some, String, List, [], ◌∷◌, ltb, any, not, str_eq, ◌==◌,
  ◌++◌ as append, if◌then◌else◌,
}
use doorito.Base.Text.{show, join}
use doorito.World.{Result, ok, err, validation_error}

-- What the code takes from `mimetypes`, `hashlib`, the file storage and `uuid`.
pub record Platform : Type 0 where
  pub guess_type : String → Option String  -- `mimetypes.guess_type(name)[0]`
  pub chunks : ℕ → List ℕ → List (List ℕ)  -- `file.chunks(chunk_size)` of a file with this content
  pub sha256 : List (List ℕ) → String  -- `hexdigest()` after one `update` for each piece
  pub url : String → String  -- the storage's address of a path
  pub str_uuid : ℕ → String

-- All pieces, one after the other.
abbrev pub concat : List (List ℕ) → List ℕ
concat [] = []
concat (b ∷ bs) = append b (concat bs)

-- The documented behaviour that the hash rests on: the chunks are the content in order, and the
-- digest does not depend on how the data is cut into pieces.
pub record ReadsWhole (p : Platform) : Type 0 where
  pub chunks_content : (n : ℕ) (content : List ℕ) → concat (p.chunks n content) ≡ content
  pub sha256_pieces : (pieces : List (List ℕ)) → p.sha256 pieces ≡ p.sha256 (concat pieces ∷ [])

-- An uploaded file; `position` is where the next read begins.
pub record UploadedFile : Type 0 where
  pub name : String
  pub size : ℕ
  pub content : List ℕ
  pub position : ℕ

-- The settings of boot/settings.py that the portal reads.
pub record Settings : Type 0 where
  pub file_upload_max_size : ℕ
  pub file_upload_ttl_hours : ℕ
  pub file_upload_allowed_types : Option (List String)
  pub file_upload_expiry_notify_hours : ℕ

abbrev pub settings : Settings
settings = record {
  file_upload_max_size = 52_428_800;
  file_upload_ttl_hours = 24;
  file_upload_allowed_types = none;
  file_upload_expiry_notify_hours = 1;
}

-- `max_size or settings.FILE_UPLOAD_MAX_SIZE`: a zero counts as none.
unfoldable pub limit_or_default : Settings → Option ℕ → ℕ
limit_or_default s none = s.file_upload_max_size
limit_or_default s (some n) = if n == 0 then s.file_upload_max_size else n

unfoldable pub type_or_default : Option String → String
type_or_default none = "application/octet-stream"
type_or_default (some content_type) = content_type

-- `allowed_types is not None and content_type not in allowed_types`
unfoldable pub disallowed : Option (List String) → String → Bool
disallowed none content_type = Bool.false
disallowed (some allowed) content_type = not (any (str_eq content_type) allowed)

-- `', '.join(allowed_types)`; read only where there is a list.
abbrev listed : Option (List String) → String
listed none = ""
listed (some allowed) = join ", " allowed

unfoldable pub validate_file : Platform → Settings → UploadedFile → Option ℕ → Result (String × ℕ)
unfolding limit_or_default type_or_default disallowed
validate_file p s file max_size =
    let limit = limit_or_default s max_size in
    let content_type = type_or_default (p.guess_type file.name) in
    if ltb limit file.size
    then err (
        validation_error
          ("File size "
            ++ (show file.size ++ (" bytes exceeds maximum of " ++ (show limit ++ " bytes."))))
          "file_too_large")
    else if disallowed s.file_upload_allowed_types content_type
    then err (
        validation_error
          ("File type '"
            ++ (content_type
                ++ ("' is not allowed. Allowed types: " ++ listed s.file_upload_allowed_types)))
          "file_type_not_allowed")
    else ok (content_type, file.size)

-- `seek(0)`, the loop of updates over 64 KB chunks, `seek(0)`: the digest, and the file after it.
unfoldable pub compute_sha256 : Platform → UploadedFile → String × UploadedFile
compute_sha256 p file =
    let opened = record file { position = 0 } in
    (p.sha256 (p.chunks 65_536 opened.content), record opened { position = 0 })
