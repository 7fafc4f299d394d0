-- ===== src/Portal/Accepting.antt =====
-- Which files `validate_file` (portal/services/uploads.py) accepts, and why it refuses the others.
use doorito.Base.{
  ℕ, ◌≤◌, ◌<◌, ◌≡◌, refl, ap, true, false, Option, none, some, String, List, [], ◌∷◌, arith, ltb,
  any, str_eq, eq_iff, ◌==◌, Bool-cases, inl, inr, ◌⊎◌, ◌↔◌,
}
use mathlib.Core.List.{Memᴰ}
use mathlib.Core.List.Memᴰ
use doorito.World.{Result, ok, err, validation_error}
use doorito.Portal.Files.{
  Platform, Settings, UploadedFile, limit_or_default, type_or_default, disallowed, validate_file,
}

-- The size that counts: the one that is given, unless it is none or zero, else the setting.
abbrev pub IsLimit : Option ℕ → Settings → ℕ → Type 0
IsLimit none s limit = limit ≡ s.file_upload_max_size
IsLimit (some n) s limit = ((n ≡ 0) × (limit ≡ s.file_upload_max_size)) ⊎ ((0 < n) × (limit ≡ n))

-- The type that counts: the guess from the name, or the type of arbitrary bytes.
abbrev pub IsType : Option String → String → Type 0
IsType none content_type = content_type ≡ "application/octet-stream"
IsType (some guess) content_type = content_type ≡ guess

-- The setting allows the type: there is no list of types, or the type is in it.
abbrev pub Allows : Option (List String) → String → Type 0
Allows none content_type = Unit
Allows (some allowed) content_type = Memᴰ content_type allowed

-- A refusal with this code, whatever the message.
abbrev pub Refused : Result (String × ℕ) → String → Type 0
Refused answer code = (message : String) × (answer ≡ err (validation_error message code))

limit_or_default-IsLimit :
    (s : Settings) (max_size : Option ℕ) → IsLimit max_size s (limit_or_default s max_size)
unfolding limit_or_default
limit_or_default-IsLimit s none = refl
limit_or_default-IsLimit s (some n) = elim (Bool-cases (n == 0)) [
  | inl empty ↦ rw empty (inl (ground arith, refl))
  | inr given ↦ rw given (inr (ground arith, refl))
]

type_or_default-IsType : (guess : Option String) → IsType guess (type_or_default guess)
unfolding type_or_default
type_or_default-IsType none = refl
type_or_default-IsType (some guess) = refl

member-Memᴰ : (t : String) (ts : List String) → any (str_eq t) ts ≡ true → Memᴰ t ts
member-Memᴰ t [] h = absurd (cc)
member-Memᴰ t (x ∷ ts) h = elim (Bool-cases (str_eq t x)) [
  | inl same ↦ Memᴰ.head ((eq_iff t x).0 same)
  | inr apart ↦ Memᴰ.tail (member-Memᴰ t ts (ground arith))
]

Memᴰ-member : (t : String) (ts : List String) → Memᴰ t ts → any (str_eq t) ts ≡ true
Memᴰ-member t [] m = absurd (Memᴰ.not-nil m)
Memᴰ-member t (x ∷ ts) (Memᴰ.head e) = let same = (eq_iff t x).1 e in ground arith
Memᴰ-member t (x ∷ ts) (Memᴰ.tail m) = let later = Memᴰ-member t ts m in ground arith

allowed-Allows :
    (types : Option (List String)) (t : String) → disallowed types t ≡ false → Allows types t
unfolding disallowed
allowed-Allows none t h = tt
allowed-Allows (some types) t h = member-Memᴰ t types (ground arith)

disallowed-refuses :
    (types : Option (List String)) (t : String) → disallowed types t ≡ true → Allows types t → ⊥
unfolding disallowed
disallowed-refuses none t h a = ground arith
disallowed-refuses (some types) t h m =
    let member = Memᴰ-member t types m in ground (arith, h, member)

abbrev code_of : Result (String × ℕ) → String
code_of (err (validation_error message code)) = code
code_of _ = ""

-- The answer has another code.
not_Refused :
    (answer : Result (String × ℕ)) (code : String)
    → str_eq (code_of answer) code ≡ false
    → Refused answer code
    → ⊥
not_Refused answer code apart (message, e) =
    let same = (eq_iff (code_of answer) code).1 (ap code_of e) in ground (arith, same, apart)

module _ (p : Platform) (s : Settings) (file : UploadedFile) (max_size : Option ℕ) where
  limit : ℕ
  limit = limit_or_default s max_size

  content_type : String
  content_type = type_or_default (p.guess_type file.name)

  Answers : Type 0
  Answers =
      let answer = validate_file p s file max_size in
      ((answer ≡ ok (content_type, file.size))
        ↔ ((file.size ≤ limit) × Allows s.file_upload_allowed_types content_type))
      × (Refused answer "file_too_large" ↔ (limit < file.size))
      × (Refused answer "file_type_not_allowed"
          ↔ ((file.size ≤ limit) × (Allows s.file_upload_allowed_types content_type → ⊥)))

  answers : Answers
  unfolding Answers limit content_type validate_file
  answers = elim (Bool-cases (ltb limit file.size)) [
    | inl large ↦ rw large (
      (λ e. absurd (cc), λ a. absurd (ground arith)),
      (λ r. ground arith, λ l. (_, refl)),
      (λ r. absurd (not_Refused _ "file_type_not_allowed" refl r), λ a. absurd (ground arith)),
    )
    | inr fits ↦ elim (Bool-cases (disallowed s.file_upload_allowed_types content_type)) [
      | inl bad ↦
          let refuses = disallowed-refuses s.file_upload_allowed_types content_type bad in
          rw (fits, bad)
            (
              (λ e. absurd (cc), λ a. absurd (refuses a.1)),
              (λ r. absurd (not_Refused _ "file_too_large" refl r), λ l. absurd (ground arith)),
              (λ r. (ground arith, refuses), λ a. (_, refl)),
            )
      | inr good ↦
          let allows = allowed-Allows s.file_upload_allowed_types content_type good in
          rw (fits, good)
            (
              (λ e. (ground arith, allows), λ a. refl),
              (λ r. absurd (not_Refused _ "file_too_large" refl r), λ l. absurd (ground arith)),
              (
                λ r. absurd (not_Refused _ "file_type_not_allowed" refl r),
                λ a. absurd (a.1 allows),
              ),
            )
    ]
  ]

-- Against the limit that is given, or the setting if none or zero is given, and the type that is
-- guessed, or the default one: `validate_file` accepts a file, and answers with the type and the
-- size, exactly if the size is within the limit and the setting has no list of types or one that
-- has the type; it refuses the file as too large exactly if the size is beyond the limit, whatever
-- the type, and for its type exactly if the size is within the limit and the type is not allowed.
pub validate_file_accepts :
    (p : Platform) (s : Settings) (file : UploadedFile) (max_size : Option ℕ)
    → let answer = validate_file p s file max_size in
      (limit : ℕ) × (content_type : String) × IsLimit max_size s limit
      × IsType (p.guess_type file.name) content_type
      × ((answer ≡ ok (content_type, file.size))
          ↔ ((file.size ≤ limit) × Allows s.file_upload_allowed_types content_type))
      × (Refused answer "file_too_large" ↔ (limit < file.size))
      × (Refused answer "file_type_not_allowed"
          ↔ ((file.size ≤ limit) × (Allows s.file_upload_allowed_types content_type → ⊥)))
unfolding Answers limit content_type
validate_file_accepts p s file max_size =
    let (accepts, large, foreign) = answers p s file max_size in
    (
      limit p s file max_size,
      content_type p s file max_size,
      limit_or_default-IsLimit s max_size,
      type_or_default-IsType (p.guess_type file.name),
      accepts,
      large,
      foreign,
    )
