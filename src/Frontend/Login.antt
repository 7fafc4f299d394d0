-- ===== src/Frontend/Login.antt =====
-- frontend/views/auth.py: login, registration and logout. A view answers with the session as it
-- leaves it; after a raise there is no session to save.
use doorito.Base.{ℕ, true, false, Option, none, some, String, str_eq, if◌then◌else◌}
use doorito.World.{Action, Result, ok, err, raise, unexpected, pure, ◌>>=◌}
use doorito.Accounts.Models.{User}
use doorito.Frontend.Http.{
  Method, HttpRequest, Session, Response, post, other, login_page, register_page, redirect_to,
  not_allowed,
}
use doorito.Frontend.Urls.{ViewName, reverse, dashboard}
use doorito.Frontend.Authentication.{Auth}
use doorito.Frontend.Forms.{Draw, valid_login, valid_registration, save}

abbrev pub Answer : Type 0
Answer = Response × Session

-- Python's `x or y` on `.get(…)`: neither None nor "".
abbrev pub or_else : Option String → Option String → Option String
or_else none y = y
or_else (some x) y = if str_eq x "" then y else some x

-- `request.GET.get("next") or request.POST.get("next")`, if it is true.
unfoldable pub next_url : HttpRequest → Option String
next_url request = or_else request.query_next (or_else request.form.next none)

-- `request.GET.get("next", "")`
abbrev pub next_or_empty : Option String → String
next_or_empty none = ""
next_or_empty (some next) = next

-- 30 days, in seconds.
abbrev pub remember_seconds : ℕ
remember_seconds = 2592000

abbrev pub to_dashboard : Session → Action Answer
to_dashboard session = pure (redirect_to (reverse dashboard), session)

module _ (a : Auth) where
  abbrev pub redirected : Session → Option String → Action Answer
  redirected session (some url) = pure (redirect_to url, session)
  redirected session none = raise (unexpected "NoReverseMatch")

  abbrev pub redirect_next : Session → Option String → Action Answer
  redirect_next session (some next) = redirected session (a.resolve_url next)
  redirect_next session none = to_dashboard session

  -- The session that a login leaves behind.
  unfoldable pub log_in : HttpRequest → User → Session
  log_in request user =
      let session = a.login user request.session in
      if request.form.remember_me
      then a.set_expiry remember_seconds session
      else a.set_expiry 0 session

  abbrev pub answer_login : HttpRequest → Result (Option User) → Action Answer
  answer_login request (ok (some user)) = redirect_next (log_in request user) (next_url request)
  answer_login request (ok none) =
      pure (login_page true (next_or_empty request.query_next), request.session)
  answer_login request (err error) = raise error

  abbrev pub login_method : Method → HttpRequest → Action Answer
  login_method post request w = answer_login request (valid_login a request.form w.db.users) w
  login_method _ request w =
      pure (login_page false (next_or_empty request.query_next), request.session) w

  abbrev pub login_user : Option ℕ → HttpRequest → Action Answer
  login_user (some user) request = to_dashboard request.session
  login_user none request = login_method request.method request

  -- `require_http_methods(["GET", "POST"])`
  abbrev pub get_or_post : Method → (HttpRequest → Action Answer) → HttpRequest → Action Answer
  get_or_post other view request = pure (not_allowed, request.session)
  get_or_post _ view request = view request

  unfoldable pub login_view : HttpRequest → Action Answer
  unfolding valid_login log_in next_url
  login_view request = get_or_post request.method (λ r. login_user r.session.user r) request

  module _ (draw : Draw) where
    abbrev pub answer_register : HttpRequest → Option (String × String) → Action Answer
    answer_register request (some (email, password)) = do
      user ← save a email password draw
      redirect_next (a.login user request.session) (next_url request)
    answer_register request none =
        pure (register_page true (next_or_empty request.query_next), request.session)

    abbrev pub register_method : Method → HttpRequest → Action Answer
    register_method post request = answer_register request (valid_registration a request.form)
    register_method _ request =
        pure (register_page false (next_or_empty request.query_next), request.session)

    abbrev pub register_user : Option ℕ → HttpRequest → Action Answer
    register_user (some user) request = to_dashboard request.session
    register_user none request = register_method request.method request

    unfoldable pub register_view : HttpRequest → Action Answer
    unfolding valid_registration save next_url
    register_view request = get_or_post request.method (λ r. register_user r.session.user r) request

  unfoldable pub logout_view : HttpRequest → Action Answer
  logout_view request = pure (redirect_to (reverse ViewName.login), a.logout request.session)
