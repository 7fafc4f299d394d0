-- ===== src/Frontend/Urls.antt =====
-- frontend/urls.py, as boot/urls.py mounts it under `/app/`. The patterns have no parameters.
use Prim.Native.String.{◌++◌}
use doorito.Base.{
  ℕ, Option, none, some, String, List, [], ◌∷◌, ◌==◌, ◌≡◌, refl, str_eq, if◌then◌else◌,
}

pub data ViewName : Type 0 where
  login register logout dashboard upload : ViewName

abbrev code : ViewName → ℕ
code login = 0
code register = 1
code logout = 2
code dashboard = 3
code upload = 4

-- Each route with the view's name, in the order in which they are tried.
abbrev pub urlpatterns : List (String × ViewName)
urlpatterns =
    ("login/", login)
    ∷ ("register/", register)
    ∷ ("logout/", logout)
    ∷ ("", dashboard)
    ∷ ("upload/", upload)
    ∷ []

-- The view of the first pattern that a path matches.
abbrev pub resolve_in : String → List (String × ViewName) → Option ViewName
resolve_in path [] = none
resolve_in path ((route, view) ∷ rest) =
    if str_eq path ("/app/" ++ route) then some view else resolve_in path rest

unfoldable pub resolve : String → Option ViewName
resolve path = resolve_in path urlpatterns

-- The address of the pattern with this name.
abbrev pub reverse_in : ViewName → List (String × ViewName) → String
reverse_in name [] = ""
reverse_in name ((route, view) ∷ rest) =
    if code name == code view then "/app/" ++ route else reverse_in name rest

-- `reverse("frontend:…")`
unfoldable pub reverse : ViewName → String
reverse name = reverse_in name urlpatterns

pub resolve-reverse : (view : ViewName) → resolve (reverse view) ≡ some view
unfolding resolve reverse
resolve-reverse login = refl
resolve-reverse register = refl
resolve-reverse logout = refl
resolve-reverse dashboard = refl
resolve-reverse upload = refl
