-- ===== src/Frontend/Site.antt =====
-- Which view answers which path: boot/urls.py, frontend/urls.py and frontend/views/dashboard.py.
-- The admin and the middleware are Django's.
use doorito.Base.{Option, none, some, String, str_eq, if◌then◌else◌}
use doorito.World.{Action, pure, ◌>>=◌}
use doorito.Common.Transactions.{Transactions}
use doorito.Portal.Files.{Platform, Settings}
use doorito.Frontend.Http.{HttpRequest, Response, dashboard_page, not_found, health}
use doorito.Frontend.Decorators.{frontend_login_required}
use doorito.Frontend.Urls.{ViewName, resolve}
use doorito.Frontend.Authentication.{Auth}
use doorito.Frontend.Forms.{Draw}
use doorito.Frontend.Login.{Answer, login_view, register_view, logout_view}
use doorito.Frontend.Upload.{Draws, upload_view}

-- A view that leaves the session alone.
abbrev pub keeping : HttpRequest → Action Response → Action Answer
keeping request view = do response ← view; pure (response, request.session)

module _ (tx : Transactions) (p : Platform) (s : Settings) (a : Auth)
    (urlencode : String → String) where
  unfoldable pub dashboard_view : HttpRequest → Action Response
  unfolding frontend_login_required
  dashboard_view = frontend_login_required urlencode (λ request. pure dashboard_page)

  module _ (draw : Draw) (draws : Draws) where
    abbrev pub view_of : ViewName → HttpRequest → Action Answer
    view_of ViewName.login request = login_view a request
    view_of ViewName.register request = register_view a draw request
    view_of ViewName.logout request = logout_view a request
    view_of ViewName.dashboard request = keeping request (dashboard_view request)
    view_of ViewName.upload request = keeping request (upload_view tx p s draws urlencode request)

    abbrev pub answer_path : Option ViewName → HttpRequest → Action Answer
    answer_path none request = pure (not_found, request.session)
    answer_path (some view) request = view_of view request

    -- The answer to a request for a path outside the admin.
    unfoldable pub handle : String → HttpRequest → Action Answer
    unfolding resolve login_view register_view logout_view dashboard_view upload_view
    handle path request =
        if str_eq path "/healthz/"
        then pure (health, request.session)
        else answer_path (resolve path) request
