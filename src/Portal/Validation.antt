-- ===== src/Portal/Validation.antt =====
-- Which files `validate_file` lets through, and what `compute_sha256` computes
-- (portal/services/uploads.py).
use doorito.Base.{
  ℕ, ◌≤◌, ◌<◌, ◌≡◌, refl, ◌∙◌, ap, true, false, Option, String, List, [], ◌∷◌, arith, ltb,
  Bool-cases, inl, inr, ◌⊎◌,
}
use doorito.World.{Result, ok, err, validation_error}
use doorito.Portal.Files.{
  Platform, ReadsWhole, Settings, UploadedFile, limit_or_default, type_or_default, disallowed,
  validate_file, compute_sha256,
}

module _ (p : Platform) (s : Settings) (file : UploadedFile) (max_size : Option ℕ) where
  abbrev pub limit : ℕ
  limit = limit_or_default s max_size

  abbrev pub content_type : String
  content_type = type_or_default (p.guess_type file.name)

  -- What the answer says of the file: it is within the limit and of an allowed type, and the answer
  -- repeats the type and the size; or it is too large; or it is within the limit and of a type that
  -- is not allowed.
  abbrev pub Validates : Result (String × ℕ) → Type 0
  Validates (ok (type, size)) =
      (file.size ≤ limit)
      × (disallowed s.file_upload_allowed_types content_type ≡ false)
      × (type ≡ content_type)
      × (size ≡ file.size)
  Validates (err (validation_error message code)) =
      ((limit < file.size) × (code ≡ "file_too_large"))
      ⊎ ((file.size ≤ limit)
          × (disallowed s.file_upload_allowed_types content_type ≡ true)
          × (code ≡ "file_type_not_allowed"))
  Validates (err e) = ⊥

  -- `validate_file` accepts exactly the files within the limit and of an allowed type, with the
  -- guessed type, or the default one, and the size; a file that is too large is refused as such
  -- whatever its type; it raises nothing but a `ValidationError`.
  pub validate_file-Validates : Validates (validate_file p s file max_size)
  unfolding validate_file
  validate_file-Validates = elim (Bool-cases (ltb limit file.size)) [
    | inl large ↦ rw large (inl (ground arith, refl))
    | inr fits ↦ elim (Bool-cases (disallowed s.file_upload_allowed_types content_type)) [
      | inl bad ↦ rw (fits, bad) (inr (ground arith, bad, refl))
      | inr good ↦ rw (fits, good) (ground arith, good, refl, refl)
    ]
  ]

-- If the chunks of a file are its content in order and a digest does not depend on how the data is
-- cut: whatever the position of the file was, the digest is that of its whole content in one
-- piece, and the file is left at its start with its content.
pub compute_sha256_whole :
    (p : Platform) (file : UploadedFile)
    → ReadsWhole p
    → compute_sha256 p file ≡ (p.sha256 (file.content ∷ []), record file { position = 0 })
unfolding compute_sha256
compute_sha256_whole p file reads =
    ap (λ (d : String). (d, record file { position = 0 }))
      (reads.sha256_pieces (p.chunks 65_536 file.content)
        ∙ ap (λ (b : List ℕ). p.sha256 (b ∷ [])) (reads.chunks_content 65_536 file.content))
