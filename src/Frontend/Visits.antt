-- ===== src/Frontend/Visits.antt =====
-- Every history of visits to the pages of frontend/views/auth.py, among any other changes that
-- leave the table of users alone.
use doorito.Base.{
  ℕ, Option, none, some, String, [], ◌∷◌, ◌++◌, ◌≡◌, inl, inr, refl, any, Bool-cases,
}
use doorito.Base.Table.{has}
use doorito.World.{World, Result, ok, err}
use doorito.Accounts.Models.{User, has_username, user_pk}
use doorito.Frontend.Http.{HttpRequest, Method, get, post, other}
use doorito.Frontend.Authentication.{Auth}
use doorito.Frontend.Forms.{Draw, create_user, valid_login, valid_registration, new_user, save}
use doorito.Frontend.Login.{
  get_or_post, login_method, login_user, register_user, register_method, answer_login,
  answer_register, login_view, register_view, logout_view, next_url, log_in,
}
use doorito.Frontend.Redirect.{redirect_next_state}
use doorito.Frontend.Accounts.{IsAccountTable, IsAccountTable-snoc}

module _ (a : Auth) where
  pub data Visit : World → World → Type 0 where
    visit_login : (request : HttpRequest) (w : World) → Visit w (login_view a request w).1
    visit_register :
        (draw : Draw) (request : HttpRequest) (w : World)
        → Visit w (register_view a draw request w).1
    visit_logout : (request : HttpRequest) (w : World) → Visit w (logout_view a request w).1
    elsewhere : (w v : World) → v.db.users ≡ w.db.users → Visit w v

  pub data Visits (start : World) : World → Type 0 where
    opened : Visits start start
    then_visit : {v w : World} → Visits start v → Visit v w → Visits start w

  abbrev pub Kept : World → Type 0
  Kept w = IsAccountTable w.db.users

  answer_login_state :
      (request : HttpRequest) (r : Result (Option User)) (w : World)
      → (answer_login a request r w).1 ≡ w
  answer_login_state request (ok (some user)) w =
      redirect_next_state a (log_in a request user) (next_url request) w
  answer_login_state request (ok none) w = refl
  answer_login_state request (err e) w = refl

  login_method_state :
      (m : Method) (request : HttpRequest) (w : World) → (login_method a m request w).1 ≡ w
  login_method_state post request w =
      answer_login_state request (valid_login a request.form w.db.users) w
  login_method_state get request w = refl
  login_method_state other request w = refl

  login_user_state :
      (user : Option ℕ) (request : HttpRequest) (w : World) → (login_user a user request w).1 ≡ w
  login_user_state (some user) request w = refl
  login_user_state none request w = login_method_state request.method request w

  login_gate :
      (m : Method) (request : HttpRequest) (w : World)
      → (get_or_post a m (λ r. login_user a r.session.user r) request w).1 ≡ w
  login_gate get request w = login_user_state request.session.user request w
  login_gate post request w = login_user_state request.session.user request w
  login_gate other request w = refl

  -- A login changes nothing but the session.
  pub login_view_state : (request : HttpRequest) (w : World) → (login_view a request w).1 ≡ w
  unfolding login_view
  login_view_state request w = login_gate request.method request w

  module _ (draw : Draw) where
    created-Kept :
        (email password : String) (request : HttpRequest) (w : World)
        → Kept w
        → Kept (answer_register a draw request (some (email, password)) w).1
    unfolding save create_user
    created-Kept email password request w t =
        let user = new_user a email password draw in
        elim (Bool-cases (has user_pk draw.id w.db.users)) [
          | inl taken ↦ rw taken t
          | inr fresh ↦ elim (Bool-cases (any (has_username email) w.db.users)) [
            | inl taken ↦ rw (fresh, taken) t
            | inr free ↦
                let w' = record w { db = record w.db { users = w.db.users ++ user ∷ [] } } in
                rw
                  (
                    fresh,
                    free,
                    redirect_next_state a (a.login user request.session) (next_url request) w',
                  )
                  (IsAccountTable-snoc user w.db.users t refl free)
          ]
        ]

    answer_register-Kept :
        (request : HttpRequest) (form : Option (String × String)) (w : World)
        → Kept w
        → Kept (answer_register a draw request form w).1
    answer_register-Kept request (some (email, password)) w t =
        created-Kept email password request w t
    answer_register-Kept request none w t = t

    register_method-Kept :
        (m : Method) (request : HttpRequest) (w : World)
        → Kept w
        → Kept (register_method a draw m request w).1
    register_method-Kept post request w t =
        answer_register-Kept request (valid_registration a request.form) w t
    register_method-Kept get request w t = t
    register_method-Kept other request w t = t

    register_user-Kept :
        (user : Option ℕ) (request : HttpRequest) (w : World)
        → Kept w
        → Kept (register_user a draw user request w).1
    register_user-Kept (some user) request w t = t
    register_user-Kept none request w t = register_method-Kept request.method request w t

    register_gate :
        (m : Method) (request : HttpRequest) (w : World)
        → Kept w
        → Kept (get_or_post a m (λ r. register_user a draw r.session.user r) request w).1
    register_gate get request w t = register_user-Kept request.session.user request w t
    register_gate post request w t = register_user-Kept request.session.user request w t
    register_gate other request w t = t

    register_view-Kept :
        (request : HttpRequest) (w : World) → Kept w → Kept (register_view a draw request w).1
    unfolding register_view
    register_view-Kept request w t = register_gate request.method request w t

  Visit-Kept : {v w : World} → Visit v w → Kept v → Kept w
  Visit-Kept (visit_login request w) t = rw (login_view_state request w) t
  Visit-Kept (visit_register draw request w) t = register_view-Kept draw request w t
  Visit-Kept (visit_logout request w) t = unfold logout_view in t
  Visit-Kept (elsewhere w v same) t = rw same t

  pub Visits-Kept : {start w : World} → Kept start → Visits start w → Kept w
  Visits-Kept t opened = t
  Visits-Kept t (then_visit r s) = Visit-Kept s (Visits-Kept t r)
