-- ===== src/Frontend/Authentication.antt =====
-- What the pages of frontend/views/auth.py take from Django: form fields, password hashing,
-- `AuthenticationForm`, `UserCreationForm`, the session, and the resolution of a redirect; and what
-- Django documents of them.
use Prim.Native.String.{◌++◌}
use doorito.Base.{ℕ, Bool, true, Option, none, some, String, List, [], ◌∷◌, ◌≡◌, ◌≢◌, filter}
use doorito.World.{Result, ok, err, does_not_exist, unexpected}
use doorito.Accounts.Models.{User, has_username}
use doorito.Frontend.Http.{Session}

-- `.get(…)` on a query.
abbrev pub get_one : List User → Result User
get_one [] = err does_not_exist
get_one (user ∷ []) = ok user
get_one (user ∷ other ∷ users) = err (unexpected "MultipleObjectsReturned")

pub record Auth : Type 0 where
  pub clean_email : String → Option String  -- `EmailField.clean`: none for a ValidationError
  pub clean_text : String → Option String  -- `CharField.clean`
  pub make_password : String → ℕ → String  -- the hash, under a fresh salt
  pub check_password : String → String → Bool  -- the password, then the hash
  pub authentication_clean : List User → Option String → Option String → Option User
      -- `AuthenticationForm.clean` on the cleaned username and password: the user
  pub creation_clean : Option String → Option String → Option String → Option String
      -- `UserCreationForm` on the cleaned email and passwords: the password, if the form is valid
  pub login : User → Session → Session
  pub logout : Session → Session
  pub set_expiry : ℕ → Session → Session
  pub resolve_url : String → Option String  -- `redirect(to)`: none for NoReverseMatch

-- A user who may log in under a name with a password.
abbrev pub Authenticates : Auth → List User → String → String → User → Type 0
Authenticates a users username password user =
    (get_one (filter (has_username username) users) ≡ ok user)
    × (a.check_password password user.password ≡ true)
    × (user.is_active ≡ true)

pub record AuthLaws (a : Auth) : Type 0 where
  -- A password passes against its own hash.
  pub check-make :
      (password : String) (salt : ℕ)
      → a.check_password password (a.make_password password salt) ≡ true
  -- A required field is not left empty.
  pub text_required : (raw password : String) → a.clean_text raw ≡ some password → password ≢ ""
  -- The form finds the active user of that name if the password passes, and no other.
  pub authenticates :
      (users : List User) (username password : String) (user : User)
      → password ≢ ""
      → Authenticates a users username password user
      → a.authentication_clean users (some username) (some password) ≡ some user
  pub authenticated :
      (users : List User) (username password : Option String) (user : User)
      → a.authentication_clean users username password ≡ some user
      → (name : String) × (word : String) × (username ≡ some name)
        × (password ≡ some word)
        × Authenticates a users name word user
  -- The form is valid only with an email and twice the same password.
  pub creates :
      (email password1 password2 : Option String) (password : String)
      → a.creation_clean email password1 password2 ≡ some password
      → (password1 ≡ some password) × (password2 ≡ some password) × (email ≢ none)
  pub login_user : (user : User) (s : Session) → (a.login user s).user ≡ some user.id
  pub logout_user : (s : Session) → (a.logout s).user ≡ none
  pub expiry_user : (n : ℕ) (s : Session) → (a.set_expiry n s).user ≡ s.user
  pub expiry_set : (n : ℕ) (s : Session) → (a.set_expiry n s).expiry ≡ some n
  -- A path is redirected to as it is.
  pub resolve_path : (path : String) → a.resolve_url ("/" ++ path) ≡ some ("/" ++ path)
