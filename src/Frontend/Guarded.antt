-- ===== src/Frontend/Guarded.antt =====
-- Which request puts a user into the session, over all pages of frontend/urls.py.
use doorito.Base.{
  ℕ, Option, none, some, String, [], ◌∷◌, ◌++◌, ◌||◌, ◌≡◌, ◌⊎◌, inl, inr, refl, sym, ap, ◌∙◌, any,
  arith, str_eq, Bool-cases,
}
use doorito.Base.Table.{has}
use doorito.World.{World, Action, Result, ok, err, continue}
use doorito.Accounts.Models.{user_pk, has_username}
use doorito.Common.Transactions.{Transactions}
use doorito.Portal.Files.{Platform, Settings}
use doorito.Frontend.Http.{HttpRequest, Session, Response, Method, get, post, other}
use doorito.Frontend.Urls.{ViewName, resolve}
use doorito.Frontend.Authentication.{Auth, AuthLaws}
use doorito.Frontend.Forms.{Draw, valid_registration, new_user, save, create_user}
use doorito.Frontend.Login.{
  Answer, get_or_post, login_user, register_user, register_method, answer_register, redirect_next,
  login_view, register_view, logout_view, next_url,
}
use doorito.Frontend.Redirect.{redirect_next-Leaves, redirect_next_state}
use doorito.Frontend.Granting.{HasPassword, Joined, Grants, by_session, login_by_user}
use doorito.Frontend.Upload.{Draws, upload_view}
use doorito.Frontend.Site.{dashboard_view, view_of, answer_path, handle}

module _ (a : Auth) (laws : AuthLaws a) (draw : Draw) where
  joined :
      (request : HttpRequest) (email password : String) (w : World)
      → valid_registration a request.form ≡ some (email, password)
      → Grants a laws draw request w (answer_register a draw request (some (email, password)) w)
  unfolding save create_user
  joined request email password w valid =
      let user = new_user a email password draw in
      elim (Bool-cases (has user_pk draw.id w.db.users || any (has_username email) w.db.users)) [
        | inl taken ↦ rw taken tt
        | inr free ↦
            let session = a.login user request.session in
            let w' = record w { db = record w.db { users = w.db.users ++ user ∷ [] } } in
            rw free (
              by_session a laws draw request session w
                (redirect_next a session (next_url request) w')
                (redirect_next-Leaves a session (next_url request) w')
                (λ key e. inr (
                  inr (record {
                    email = email;
                    password = password;
                    is_valid = valid;
                    is_added =
                        ap (λ (v : World). v.db.users)
                          (redirect_next_state a session (next_url request) w');
                    is_new = ground (arith, sym (laws.login_user user request.session) ∙ e);
                  }))))
      ]

  register_answer :
      (request : HttpRequest) (form : Option (String × String)) (w : World)
      → valid_registration a request.form ≡ form
      → Grants a laws draw request w (answer_register a draw request form w)
  register_answer request (some (email, password)) w valid = joined request email password w valid
  register_answer request none w valid = λ user e. inl e

  register_by_method :
      (m : Method) (request : HttpRequest) (w : World)
      → Grants a laws draw request w (register_method a draw m request w)
  register_by_method post request w =
      register_answer request (valid_registration a request.form) w refl
  register_by_method get request w = λ user e. inl e
  register_by_method other request w = λ user e. inl e

  register_by_user :
      (u : Option ℕ) (request : HttpRequest) (w : World)
      → Grants a laws draw request w (register_user a draw u request w)
  register_by_user (some u) request w = λ user e. inl e
  register_by_user none request w = register_by_method request.method request w

  gate :
      (m : Method) (view : HttpRequest → Action Answer) (request : HttpRequest) (w : World)
      → Grants a laws draw request w (view request w)
      → Grants a laws draw request w (get_or_post a m view request w)
  gate get view request w g = g
  gate post view request w g = g
  gate other view request w g = λ user e. inl e

  kept :
      (request : HttpRequest) (w : World) (r : Result Response × World)
      → Grants a laws draw request w
          (continue r (λ response v. (ok (response, request.session), v)))
  kept request w (ok response, v) = λ user e. inl e
  kept request w (err e, v) = tt

  module _ (tx : Transactions) (p : Platform) (s : Settings) (urlencode : String → String)
      (draws : Draws) where
    view_of-Grants :
        (view : ViewName) (request : HttpRequest) (w : World)
        → Grants a laws draw request w (view_of tx p s a urlencode draw draws view request w)
    unfolding login_view register_view logout_view
    view_of-Grants ViewName.login request w =
        gate request.method (λ r. login_user a r.session.user r) request w
          (login_by_user a laws draw request.session.user request w)
    view_of-Grants ViewName.register request w =
        gate request.method (λ r. register_user a draw r.session.user r) request w
          (register_by_user request.session.user request w)
    view_of-Grants ViewName.logout request w =
        λ user e. absurd (ground (arith, sym (laws.logout_user request.session) ∙ e))
    view_of-Grants ViewName.dashboard request w =
        kept request w (dashboard_view tx p s a urlencode request w)
    view_of-Grants ViewName.upload request w =
        kept request w (upload_view tx p s draws urlencode request w)

    path-Grants :
        (view : Option ViewName) (request : HttpRequest) (w : World)
        → Grants a laws draw request w (answer_path tx p s a urlencode draw draws view request w)
    path-Grants none request w = λ user e. inl e
    path-Grants (some view) request w = view_of-Grants view request w

    handle-Grants :
        (path : String) (request : HttpRequest) (w : World)
        → Grants a laws draw request w (handle tx p s a urlencode draw draws path request w)
    unfolding handle
    handle-Grants path request w = elim (Bool-cases (str_eq path "/healthz/")) [
      | inl health ↦ rw health (λ user e. inl e)
      | inr other_path ↦ rw other_path (path-Grants (resolve path) request w)
    ]

    -- Whatever request is answered, at whatever path outside the admin: if the session that it
    -- leaves behind holds a user, then the session held this user before, or the request brought a
    -- password that passes for the active user whom its key names, or it brought a valid
    -- registration form and the user is the one who was added to the table for it.
    pub session_user_granted :
        (path : String) (request : HttpRequest) (w : World) (response : Response)
        (session : Session) (after : World) (user : ℕ)
        → handle tx p s a urlencode draw draws path request w ≡ (ok (response, session), after)
        → session.user ≡ some user
        → (request.session.user ≡ some user)
          ⊎ (HasPassword a request user w ⊎ Joined a draw request user w after)
    session_user_granted path request w response session after user h =
        (rw h at (handle-Grants path request w)) user
