-- ===== src/Frontend/Registration.antt =====
-- Registration and the login after it (frontend/views/auth.py).
use doorito.Base.{
  false, Option, none, some, String, [], ◌∷◌, ◌++◌, ◌≡◌, inl, inr, refl, ap, ◌∙◌, any, arith,
  str_eq_refl, Bool-cases,
}
use doorito.Base.Table.{has}
use doorito.World.{World, ok}
use doorito.Accounts.Models.{User, has_email, has_username, user_pk}
use doorito.Frontend.Http.{FormData, HttpRequest, Session, post, redirect_to}
use doorito.Frontend.Urls.{reverse}
use doorito.Frontend.Authentication.{Auth, AuthLaws, get_one}
use doorito.Frontend.Forms.{
  Draw, create_user, valid_login, valid_registration, new_user, save, with_password,
}
use doorito.Frontend.Login.{
  remember_seconds, get_or_post, login_method, login_user, register_user, register_method,
  answer_login, answer_register, redirect_next, login_view, register_view, next_url, log_in,
}
use doorito.Frontend.Redirect.{redirect_next_state}
use doorito.Frontend.Accounts.{
  IsAccountTable, filter-snoc, IsAccountTable-snoc, any-same, valid_login-Matches,
}

-- A form that an anonymous visitor posts.
abbrev pub Submits : HttpRequest → Type 0
Submits request = (request.method ≡ post) × (request.session.user ≡ none)

module _ (a : Auth) where
  both_given :
      (e c : Option String) (email password : String)
      → with_password a e c ≡ some (email, password)
      → (e ≡ some email) × (c ≡ some password)
  both_given (some e) (some c) email password h = ground (arith, h)
  both_given (some e) none email password h = absurd (ground (arith, h))
  both_given none c email password h = absurd (ground (arith, h))

  module _ (laws : AuthLaws a) where
    valid_fields :
        (form : FormData) (email password : String)
        → valid_registration a form ≡ some (email, password)
        → (a.clean_email form.email ≡ some email) × (a.clean_text form.password1 ≡ some password)
    unfolding valid_registration
    valid_fields form email password h =
        let e = a.clean_email form.email in
        let (is_email, is_password) =
          both_given e
            (a.creation_clean e (a.clean_text form.password1) (a.clean_text form.password2)) email
            password h in
        (
          is_email,
          (laws.creates e (a.clean_text form.password1) (a.clean_text form.password2) password
              is_password).0,
        )

    pub log_in_user :
        (request : HttpRequest) (user : User) → (log_in a request user).user ≡ some user.id
    unfolding log_in
    log_in_user request user = elim (Bool-cases request.form.remember_me) [
      | inl long ↦ rw long (
          laws.expiry_user remember_seconds (a.login user request.session)
          ∙ laws.login_user user request.session)
      | inr short ↦
          rw short (
            laws.expiry_user 0 (a.login user request.session)
            ∙ laws.login_user user request.session)
    ]

  pub login_view_posted :
      (request : HttpRequest) (w : World)
      → Submits request
      → login_view a request w ≡ answer_login a request (valid_login a request.form w.db.users) w
  unfolding login_view
  login_view_posted request w (posts, anonymous) =
      ap (λ m. get_or_post a m (λ r. login_user a r.session.user r) request w) posts
      ∙ ap (λ u. login_user a u request w) anonymous
      ∙ ap (λ m. login_method a m request w) posts

  module _ (draw : Draw) where
    pub register_view_posted :
        (request : HttpRequest) (w : World)
        → Submits request
        → register_view a draw request w
          ≡ answer_register a draw request (valid_registration a request.form) w
    unfolding register_view
    register_view_posted request w (posts, anonymous) =
        ap (λ m. get_or_post a m (λ r. register_user a draw r.session.user r) request w) posts
        ∙ ap (λ u. register_user a draw u request w) anonymous
        ∙ ap (λ m. register_method a draw m request w) posts

    abbrev pub with_user : User → World → World
    with_user user w = record w { db = record w.db { users = w.db.users ++ user ∷ [] } }

    pub register_fresh :
        (request : HttpRequest) (email password : String) (w : World)
        → Submits request
        → valid_registration a request.form ≡ some (email, password)
        → has user_pk draw.id w.db.users ≡ false
        → any (has_username email) w.db.users ≡ false
        → let user = new_user a email password draw in
          register_view a draw request w
          ≡ redirect_next a (a.login user request.session) (next_url request) (with_user user w)
    unfolding save create_user
    register_fresh request email password w submits valid fresh free =
        rw (register_view_posted request w submits, valid, fresh, free) refl

  module _ (laws : AuthLaws a) (draw : Draw) where
    -- If an anonymous visitor posts a valid registration form, under a fresh key and with an email
    -- that is not taken, in a table of accounts, then whoever then posts the login form with the
    -- same email and the same password as they were typed, and without a place to go next, is sent
    -- to the dashboard, in a session of the new user.
    pub register_then_login :
        (registration request : HttpRequest) (email password : String) (w : World)
        → Submits registration
        → valid_registration a registration.form ≡ some (email, password)
        → IsAccountTable w.db.users
        → has user_pk draw.id w.db.users ≡ false
        → any (has_username email) w.db.users ≡ false
        → Submits request
        → request.form.username ≡ registration.form.email
        → request.form.password ≡ registration.form.password1
        → next_url request ≡ none
        → let after = (register_view a draw registration w).1 in
          (session : Session) × (session.user ≡ some draw.id)
          × (login_view a request after ≡ (ok (redirect_to "/app/", session), after))
    unfolding reverse
    register_then_login registration request email password w submits valid t fresh free again
          same_email same_password no_next =
        let user = new_user a email password draw in
        let state : (register_view a draw registration w).1 ≡ with_user draw user w =
          ap (λ r. r.1) (register_fresh draw registration email password w submits valid fresh free)
          ∙ redirect_next_state a (a.login user registration.session) (next_url registration)
              (with_user draw user w) in
        let after = with_user draw user w in
        let (is_email, is_password) = valid_fields laws registration.form email password valid in
        let found : valid_login a request.form after.db.users ≡ ok (some user) =
          (valid_login-Matches a laws request.form after.db.users email password user
              (IsAccountTable-snoc user w.db.users t refl free)
              (ap a.clean_email same_email ∙ is_email)
              (ap a.clean_text same_password ∙ is_password)).1
            (
              ap get_one (
                  filter-snoc (has_email email) user w.db.users
                    (any-same email w.db.users t.0 ∙ free) (str_eq_refl email)),
              laws.check-make password draw.salt,
              refl,
            ) in
        rw state (
          log_in a request user,
          log_in_user laws request user,
          rw (login_view_posted request after again, found, no_next) refl,
        )
