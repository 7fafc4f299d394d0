-- ===== src/Frontend/Decorators.antt =====
-- frontend/decorators.py: the pages that need a login. `urlencode` stands for
-- `urlencode({"next": path})`.
use Prim.Native.String.{◌++◌}
use doorito.Base.{ℕ, Option, none, some, String}
use doorito.World.{Action, pure}
use doorito.Frontend.Http.{HttpRequest, Response, to_login}

abbrev pub by_user :
    (String → String) → (HttpRequest → Action Response) → Option ℕ → HttpRequest → Action Response
by_user urlencode view none request =
    pure (to_login ("/app/login/" ++ ("?" ++ urlencode request.full_path)))
by_user urlencode view (some user) request = view request

unfoldable pub frontend_login_required :
    (String → String) → (HttpRequest → Action Response) → HttpRequest → Action Response
frontend_login_required urlencode view request = by_user urlencode view request.session.user request
