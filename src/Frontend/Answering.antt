-- ===== src/Frontend/Answering.antt =====
-- That the login page (frontend/views/auth.py) always answers.
use doorito.Base.{ℕ, Option, none, some, String, [], ◌≡◌, refl}
use doorito.World.{World, Result, ok}
use doorito.Accounts.Models.{User}
use doorito.Frontend.Http.{HttpRequest, Session, Method, get, post, other, redirect_to}
use doorito.Frontend.Authentication.{Auth, AuthLaws}
use doorito.Frontend.Forms.{valid_login}
use doorito.Frontend.Login.{
  Answer, get_or_post, login_method, login_user, answer_login, redirect_next, login_view, next_url,
  log_in,
}
use doorito.Frontend.Accounts.{IsAccountTable, clean-eq}
use doorito.Frontend.Visits.{Visits, Visits-Kept}

module _ (a : Auth) where
  -- The place to go next, if there is one, is an address or the name of a page.
  abbrev pub Resolves : Option String → Type 0
  Resolves next = (url : String) → next ≡ some url → (to : String) × (a.resolve_url url ≡ some to)

  abbrev Answered : World → Result Answer × World → Type 0
  Answered w r = (answer : Answer) × (r ≡ (ok answer, w))

  redirect_next-Answered :
      (s : Session) (next : Option String) (w : World)
      → Resolves next
      → Answered w (redirect_next a s next w)
  redirect_next-Answered s (some url) w h =
      let (to, e) = h url refl in ((redirect_to to, s), rw e refl)
  redirect_next-Answered s none w h = (_, refl)

  answer_login-Answered :
      (request : HttpRequest) (user : Option User) (w : World)
      → Resolves (next_url request)
      → Answered w (answer_login a request (ok user) w)
  answer_login-Answered request (some user) w h =
      redirect_next-Answered (log_in a request user) (next_url request) w h
  answer_login-Answered request none w h = (_, refl)

  module _ (laws : AuthLaws a) where
    login_method-Answered :
        (m : Method) (request : HttpRequest) (w : World)
        → IsAccountTable w.db.users
        → Resolves (next_url request)
        → Answered w (login_method a m request w)
    unfolding valid_login
    login_method-Answered post request w t h =
        let email = a.clean_email request.form.username in
        let password = a.clean_text request.form.password in
        rw (clean-eq a laws w.db.users email password t)
          (answer_login-Answered request (a.authentication_clean w.db.users email password) w h)
    login_method-Answered get request w t h = (_, refl)
    login_method-Answered other request w t h = (_, refl)

    login_user-Answered :
        (user : Option ℕ) (request : HttpRequest) (w : World)
        → IsAccountTable w.db.users
        → Resolves (next_url request)
        → Answered w (login_user a user request w)
    login_user-Answered (some user) request w t h = (_, refl)
    login_user-Answered none request w t h = login_method-Answered request.method request w t h

    gate-Answered :
        (m : Method) (request : HttpRequest) (w : World)
        → IsAccountTable w.db.users
        → Resolves (next_url request)
        → Answered w (get_or_post a m (λ r. login_user a r.session.user r) request w)
    gate-Answered get request w t h = login_user-Answered request.session.user request w t h
    gate-Answered post request w t h = login_user-Answered request.session.user request w t h
    gate-Answered other request w t h = (_, refl)

    -- From an empty table of users, after any sequence of requests to the login, registration and
    -- logout pages, whatever their forms hold, and of changes that leave the users alone, every
    -- request to the login page whose place to go next resolves is answered, with the database as
    -- it was: in particular the lookup of the email never meets two users.
    pub Visits-login_returns :
        {start w : World} (request : HttpRequest)
        → start.db.users ≡ []
        → Visits a start w
        → Resolves (next_url request)
        → (answer : Answer) × (login_view a request w ≡ (ok answer, w))
    unfolding login_view
    Visits-login_returns {w = w} request empty visits h =
        gate-Answered request.method request w (Visits-Kept a (rw empty (tt, tt)) visits) h
