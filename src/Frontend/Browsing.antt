-- ===== src/Frontend/Browsing.antt =====
-- Every history of requests to the site (boot/urls.py, frontend/urls.py).
use doorito.Base.{ℕ, Option, none, some, String, [], ◌≡◌, refl, str_eq, Bool-cases, inl, inr}
use doorito.World.{World, ok, pure}
use doorito.Common.Transactions.{Transactions}
use doorito.Portal.Files.{Platform, Settings}
use doorito.Frontend.Http.{HttpRequest, dashboard_page}
use doorito.Frontend.Urls.{ViewName, resolve}
use doorito.Frontend.Authentication.{Auth, AuthLaws}
use doorito.Frontend.Decorators.{by_user, frontend_login_required}
use doorito.Frontend.Forms.{Draw}
use doorito.Frontend.Login.{Answer, login_view, next_url}
use doorito.Frontend.Upload.{Draws, upload_view}
use doorito.Frontend.Site.{dashboard_view, view_of, answer_path, handle}
use doorito.Frontend.Framing.{Keeps, chain-Keeps, upload_view-Keeps}
use doorito.Frontend.Visits.{
  Visit, Visits, visit_login, visit_register, visit_logout, elsewhere, opened, then_visit,
}
use doorito.Frontend.Answering.{Resolves, Visits-login_returns}

module _ (tx : Transactions) (p : Platform) (s : Settings) (a : Auth)
    (urlencode : String → String) where
  -- One request after the other, each with what it draws from its surroundings.
  pub data Browsed (start : World) : World → Type 0 where
    entered : Browsed start start
    then_handle :
        {w : World} (draw : Draw) (draws : Draws) (path : String) (request : HttpRequest)
        → Browsed start w
        → Browsed start (handle tx p s a urlencode draw draws path request w).1

  dashboard-Keeps :
      (user : Option ℕ) (request : HttpRequest)
      → Keeps (by_user urlencode (λ request. pure dashboard_page) user request)
  dashboard-Keeps none request w = refl
  dashboard-Keeps (some user) request w = refl

  module _ (draw : Draw) (draws : Draws) where
    view_of-Visit :
        (view : ViewName) (request : HttpRequest) (w : World)
        → Visit a w (view_of tx p s a urlencode draw draws view request w).1
    unfolding dashboard_view frontend_login_required
    view_of-Visit ViewName.login request w = visit_login request w
    view_of-Visit ViewName.register request w = visit_register draw request w
    view_of-Visit ViewName.logout request w = visit_logout request w
    view_of-Visit ViewName.dashboard request w = elsewhere w _ (
        chain-Keeps (dashboard_view tx p s a urlencode request) _
          (dashboard-Keeps request.session.user request) (λ r w. refl) w)
    view_of-Visit ViewName.upload request w = elsewhere w _ (
        chain-Keeps (upload_view tx p s draws urlencode request) _
          (upload_view-Keeps tx p s draws urlencode request) (λ r w. refl) w)

    path-Visit :
        (view : Option ViewName) (request : HttpRequest) (w : World)
        → Visit a w (answer_path tx p s a urlencode draw draws view request w).1
    path-Visit none request w = elsewhere w w refl
    path-Visit (some view) request w = view_of-Visit view request w

    handle-Visit :
        (path : String) (request : HttpRequest) (w : World)
        → Visit a w (handle tx p s a urlencode draw draws path request w).1
    unfolding handle
    handle-Visit path request w = elim (Bool-cases (str_eq path "/healthz/")) [
      | inl health ↦ rw health (elsewhere w w refl)
      | inr app ↦ rw app (path-Visit (resolve path) request w)
    ]

  Browsed-Visits : {start w : World} → Browsed start w → Visits a start w
  Browsed-Visits entered = opened
  Browsed-Visits (then_handle {w} draw draws path request b) =
      then_visit (Browsed-Visits b) (handle-Visit draw draws path request w)

  -- From an empty table of users, after any sequence of requests to the site, at any paths outside
  -- the admin and with any forms, files and draws, every request to the login page whose place to go
  -- next resolves is answered, and leaves the database as it was: in particular the lookup of the
  -- email never meets two users.
  pub Browsed-login_returns :
      (laws : AuthLaws a) {start w : World} (request : HttpRequest)
      → start.db.users ≡ []
      → Browsed start w
      → Resolves a (next_url request)
      → (answer : Answer) × (login_view a request w ≡ (ok answer, w))
  Browsed-login_returns laws request empty browsed h =
      Visits-login_returns a laws request empty (Browsed-Visits browsed) h
