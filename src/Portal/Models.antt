-- ===== src/Portal/Models.antt =====
-- portal/models.py: the rows of the upload tables. A foreign key holds the primary key of the row
-- that it names, or none.
use doorito.Base.{ℕ, Bool, Option, String, true, false}

-- `UploadBatch.Status`
pub data BatchStatus : Type 0 where
  init in_progress complete partial failed : BatchStatus

pub record UploadBatch : Type 0 where
  pub id : ℕ
  pub created_by : Option ℕ
  pub status : BatchStatus
  pub idempotency_key : String
  pub created_at : ℕ
  pub updated_at : ℕ

-- `UploadFile.Status`
pub data FileStatus : Type 0 where
  uploading stored failed : FileStatus

abbrev pub is_stored : FileStatus → Bool
is_stored stored = true
is_stored _ = false

abbrev pub is_failed : FileStatus → Bool
is_failed failed = true
is_failed _ = false

abbrev pub is_uploading : FileStatus → Bool
is_uploading uploading = true
is_uploading _ = false

-- `file` is the path in the media storage; the column `metadata` stays `{}` in every service.
pub record UploadFile : Type 0 where
  pub id : ℕ
  pub batch : Option ℕ
  pub uploaded_by : Option ℕ
  pub file : String
  pub original_filename : String
  pub content_type : String
  pub size_bytes : ℕ
  pub sha256 : String
  pub status : FileStatus
  pub error_message : String
  pub created_at : ℕ
  pub updated_at : ℕ

-- `UploadSession.Status`
pub data SessionStatus : Type 0 where
  init in_progress complete failed aborted : SessionStatus

pub record UploadSession : Type 0 where
  pub id : ℕ
  pub file : ℕ
  pub status : SessionStatus
  pub chunk_size_bytes : ℕ
  pub total_size_bytes : ℕ
  pub total_parts : ℕ
  pub bytes_received : ℕ
  pub completed_parts : ℕ
  pub updated_at : ℕ

-- `UploadPart.Status`
pub data PartStatus : Type 0 where
  pending received failed : PartStatus

abbrev pub is_received : PartStatus → Bool
is_received received = true
is_received _ = false

pub record UploadPart : Type 0 where
  pub id : ℕ
  pub session : ℕ
  pub part_number : ℕ
  pub offset_bytes : ℕ
  pub size_bytes : ℕ
  pub sha256 : String
  pub status : PartStatus
