-- ===== src/Frontend/Forms.antt =====
-- frontend/forms/auth.py: the forms of login and registration. The widgets are left out.
use doorito.Base.{
  ℕ, true, Option, none, some, String, List, [], ◌∷◌, ◌++◌, ◌||◌, any, filter, str_eq,
  if◌then◌else◌,
}
use doorito.Base.Table.{has}
use doorito.World.{Action, Result, ok, err, integrity_error, does_not_exist}
use doorito.Accounts.Models.{User, has_email, has_username, user_pk}
use doorito.Frontend.Http.{FormData}
use doorito.Frontend.Authentication.{Auth, get_one}

-- What the insertion of a user draws: its key and the salt of the hash.
pub record Draw : Type 0 where
  pub id : ℕ
  pub salt : ℕ

-- `except User.DoesNotExist: pass`
abbrev pub username_or : String → Result User → Result String
username_or email (ok user) = ok user.username
username_or email (err does_not_exist) = ok email
username_or email (err error) = err error

-- The username that stands for an email.
unfoldable pub resolve_username : List User → String → Result String
resolve_username users email =
    if str_eq email ""
    then ok email
    else username_or email (get_one (filter (has_email email) users))

-- The insertion of a row into the table `user`.
unfoldable pub create_user : User → Action User
create_user user w =
    if has user_pk user.id w.db.users || any (has_username user.username) w.db.users
    then (err integrity_error, w)
    else (ok user, record w { db = record w.db { users = w.db.users ++ user ∷ [] } })

module _ (a : Auth) where
  abbrev pub with_username : List User → Option String → Result String → Result (Option User)
  with_username users password (ok username) =
      ok (a.authentication_clean users (some username) password)
  with_username users password (err error) = err error

  -- `FrontendLoginForm.clean` on the cleaned fields: the user, if the form is valid.
  unfoldable pub clean : List User → Option String → Option String → Result (Option User)
  unfolding resolve_username
  clean users none password = ok (a.authentication_clean users none password)
  clean users (some email) password = with_username users password (resolve_username users email)

  -- `form.is_valid()` and `form.get_user()` of the login form.
  unfoldable pub valid_login : FormData → List User → Result (Option User)
  unfolding clean
  valid_login form users = clean users (a.clean_email form.username) (a.clean_text form.password)

  abbrev pub with_password : Option String → Option String → Option (String × String)
  with_password (some email) (some password) = some (email, password)
  with_password _ _ = none

  -- `form.is_valid()` of the registration form: the cleaned email and password.
  unfoldable pub valid_registration : FormData → Option (String × String)
  valid_registration form =
      let email = a.clean_email form.email in
      with_password email
        (a.creation_clean email (a.clean_text form.password1) (a.clean_text form.password2))

  abbrev pub new_user : String → String → Draw → User
  new_user email password draw = record {
    id = draw.id;
    username = email;
    email = email;
    password = a.make_password password draw.salt;
    is_active = true;
  }

  -- `FrontendRegisterForm.save`
  unfoldable pub save : String → String → Draw → Action User
  unfolding create_user
  save email password draw = create_user (new_user email password draw)
