-- ===== src/Accounts/Models.antt =====
-- accounts/models.py: `User`, with the fields of `AbstractUser` that the code uses.
use doorito.Base.{ℕ, Bool, String, str_eq, if◌then◌else◌}

pub record User : Type 0 where
  pub id : ℕ
  pub username : String
  pub email : String
  pub password : String  -- hashed
  pub is_active : Bool

-- `User.__str__`
unfoldable pub str_user : User → String
str_user user = if str_eq user.email "" then user.username else user.email

-- The lookups by a column.
abbrev pub has_email : String → User → Bool
has_email email user = str_eq user.email email

abbrev pub has_username : String → User → Bool
has_username username user = str_eq user.username username

abbrev pub user_pk : User → ℕ
user_pk user = user.id
