-- ===== src/Frontend/Granting.antt =====
-- How a user may come into the session, and that the login page of frontend/views/auth.py keeps to
-- it.
use doorito.Base.{
  ℕ, Option, none, some, String, [], ◌∷◌, ◌++◌, ◌≡◌, ◌⊎◌, inl, inr, refl, sym, ap, ◌∙◌, arith,
}
use doorito.World.{World, Result, ok, err}
use doorito.Accounts.Models.{User}
use doorito.Frontend.Http.{HttpRequest, Session, Method, get, post, other}
use doorito.Frontend.Authentication.{Auth, AuthLaws, Authenticates}
use doorito.Frontend.Forms.{
  Draw, with_username, resolve_username, clean, valid_login, valid_registration, new_user,
}
use doorito.Frontend.Login.{
  Answer, login_method, login_user, answer_login, redirect_next, next_url, log_in,
}
use doorito.Frontend.Redirect.{Leaves, redirect_next-Leaves}
use doorito.Frontend.Registration.{log_in_user}

module _ (a : Auth) where
  -- The posted password passes for an active user with this key.
  pub record HasPassword (request : HttpRequest) (user : ℕ) (w : World) : Type 0 where
    pub account : User
    pub name : String
    pub password : String
    pub is_typed : a.clean_text request.form.password ≡ some password
    pub authentic : Authenticates a w.db.users name password account
    pub is_account : account.id ≡ user

  -- The user was just created from a valid form, under the key that was drawn.
  pub record Joined (draw : Draw) (request : HttpRequest) (user : ℕ) (w after : World)
      : Type 0 where
    pub email : String
    pub password : String
    pub is_valid : valid_registration a request.form ≡ some (email, password)
    pub is_added : after.db.users ≡ w.db.users ++ new_user a email password draw ∷ []
    pub is_new : draw.id ≡ user

module _ (a : Auth) (laws : AuthLaws a) where
  has_password :
      (request : HttpRequest) (name : Option String) (user : User) (w : World)
      → a.authentication_clean w.db.users name (a.clean_text request.form.password) ≡ some user
      → HasPassword a request user.id w
  has_password request name user w h =
      let (word, password, is_name, typed, good) =
        laws.authenticated w.db.users name (a.clean_text request.form.password) user h in
      record {
        account = user;
        name = word;
        password = password;
        is_typed = typed;
        authentic = good;
        is_account = refl;
      }

  by_username :
      (request : HttpRequest) (name : Result String) (user : User) (w : World)
      → with_username a w.db.users (a.clean_text request.form.password) name ≡ ok (some user)
      → HasPassword a request user.id w
  by_username request (ok name) user w h =
      has_password request (some name) user w (ground (arith, h))
  by_username request (err e) user w h = absurd (ground (arith, h))

  accepted :
      (request : HttpRequest) (email : Option String) (user : User) (w : World)
      → clean a w.db.users email (a.clean_text request.form.password) ≡ ok (some user)
      → HasPassword a request user.id w
  unfolding clean
  accepted request none user w h = has_password request none user w (ground (arith, h))
  accepted request (some email) user w h =
      by_username request (resolve_username w.db.users email) user w h

  module _ (draw : Draw) where
    -- How a user may have come into the session.
    abbrev pub MayHold : HttpRequest → ℕ → World → World → Type 0
    MayHold request user w after =
        (request.session.user ≡ some user)
        ⊎ (HasPassword a request user w ⊎ Joined a draw request user w after)

    abbrev pub Grants : HttpRequest → World → Result Answer × World → Type 0
    Grants request w (ok (response, session), after) =
        (user : ℕ) → session.user ≡ some user → MayHold request user w after
    Grants request w (err e, after) = Unit

    -- An answer with a certain session.
    pub by_session :
        (request : HttpRequest) (session : Session) (w : World) (r : Result Answer × World)
        → Leaves a session r.0
        → ((user : ℕ) → session.user ≡ some user → MayHold request user w r.1)
        → Grants request w r
    by_session request session w (ok (response, s), after) leaves h =
        λ user e. h user (ap (λ (s : Session). s.user) (sym leaves) ∙ e)
    by_session request session w (err e, after) leaves h = tt

    logged_in :
        (request : HttpRequest) (account : User) (w : World)
        → HasPassword a request account.id w
        → Grants request w (answer_login a request (ok (some account)) w)
    logged_in request account w good =
        let session = log_in a request account in
        by_session request session w (redirect_next a session (next_url request) w)
          (redirect_next-Leaves a session (next_url request) w)
          (λ user e.
            let same : account.id ≡ user =
              ground (arith, sym (log_in_user a laws request account) ∙ e) in
            inr (inl (rw⁻¹ same good)))

    login_answer :
        (request : HttpRequest) (r : Result (Option User)) (w : World)
        → ((account : User) → r ≡ ok (some account) → HasPassword a request account.id w)
        → Grants request w (answer_login a request r w)
    login_answer request (ok (some account)) w h = logged_in request account w (h account refl)
    login_answer request (ok none) w h = λ user e. inl e
    login_answer request (err e) w h = tt

    login_by_method :
        (m : Method) (request : HttpRequest) (w : World)
        → Grants request w (login_method a m request w)
    unfolding valid_login
    login_by_method post request w =
        login_answer request (valid_login a request.form w.db.users) w
          (λ account. accepted request (a.clean_email request.form.username) account w)
    login_by_method get request w = λ user e. inl e
    login_by_method other request w = λ user e. inl e

    pub login_by_user :
        (u : Option ℕ) (request : HttpRequest) (w : World)
        → Grants request w (login_user a u request w)
    login_by_user (some u) request w = λ user e. inl e
    login_by_user none request w = login_by_method request.method request w
