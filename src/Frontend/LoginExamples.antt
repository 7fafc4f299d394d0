-- ===== src/Frontend/LoginExamples.antt =====
-- Visits to the login and registration pages: an account is made and used.
use text.Mathlib.TextLemmas.{cons≢nil}
use doorito.Base.{String, true, false, none, some, [], ◌∷◌, ◌≡◌, ◌↔◌, ◌⊎◌, refl}
use doorito.World.{unexpected, World, ok, err}
use doorito.Accounts.Models.{User}
use doorito.Common.Transactions.{documented}
use doorito.Common.Sample.{empty}
use doorito.Portal.Files.{settings}
use doorito.Frontend.Http.{Method, Session, HttpRequest, redirect_to}
use doorito.Frontend.Urls.{resolve, reverse}
use doorito.Frontend.Forms.{
  Draw, valid_login, valid_registration, new_user, clean, resolve_username,
}
use doorito.Frontend.Login.{Answer, login_view, register_view, next_url, log_in}
use doorito.Frontend.Lookup.{Names, valid_login-Names}
use doorito.Frontend.Authentication.{Authenticates}
use doorito.Frontend.Registration.{register_then_login}
use doorito.Frontend.Browsing.{entered, then_handle, Browsed-login_returns}
use doorito.Frontend.Granting.{HasPassword, Joined}
use doorito.Frontend.Shadowing.{register_shadows}
use doorito.Frontend.Guarded.{session_user_granted}
use doorito.Frontend.Site.{handle}
use doorito.Frontend.SampleAuth.{auth, auth_laws}
use doorito.Frontend.Examples.{platform, draws, no_fields}

abbrev pub nobody : Session
nobody = record { user = none; expiry = none }

abbrev pub asking : HttpRequest
asking = record {
  method = Method.get;
  session = nobody;
  htmx = false;
  full_path = "/app/upload/";
  query_next = none;
  form = no_fields;
  files = [];
}

abbrev registration : HttpRequest
registration = record asking {
  method = Method.post;
  form = record no_fields { email = "ann@example.com"; password1 = "pw"; password2 = "pw" };
}

abbrev logging_in : HttpRequest
logging_in = record asking {
  method = Method.post;
  form = record no_fields { username = "ann@example.com"; password = "pw"; remember_me = true };
}

abbrev draw : Draw
draw = record { id = 3; salt = 8 }

abbrev ann : User
ann = new_user auth "ann@example.com" "pw" draw

abbrev with_ann : World
with_ann = record empty { db = record empty.db { users = ann ∷ [] } }

logged_in :
    login_view auth logging_in with_ann
    ≡ (ok (redirect_to "/app/", record { user = some 3; expiry = some 2592000 }), with_ann)
unfolding login_view valid_login clean resolve_username log_in next_url reverse
logged_in = refl

register_then_login_example :
    let after = (register_view auth draw registration empty).1 in
    (session : Session) × (session.user ≡ some 3)
    × (login_view auth logging_in after ≡ (ok (redirect_to "/app/", session), after))
unfolding valid_registration next_url
register_then_login_example =
    register_then_login auth auth_laws draw registration logging_in "ann@example.com" "pw" empty
      (refl, refl) refl (tt, tt) refl refl (refl, refl) refl refl refl

valid_login-Names_example : (valid_login auth logging_in.form (ann ∷ []) ≡ ok (some ann)) ↔ (
    (name : String) × Names (ann ∷ []) "ann@example.com" name
    × Authenticates auth (ann ∷ []) name "pw" ann)
valid_login-Names_example =
    valid_login-Names auth auth_laws logging_in.form (ann ∷ []) "ann@example.com" "pw" ann refl
      (λ e. cons≢nil e) refl

abbrev visited : World
visited =
    (handle documented platform settings auth (λ path. path) draw draws "/app/register/"
      registration empty).1

Browsed-login_returns_example :
    (answer : Answer) × (login_view auth logging_in visited ≡ (ok answer, visited))
Browsed-login_returns_example =
    Browsed-login_returns documented platform settings auth (λ path. path) auth_laws {start = empty}
      logging_in refl (then_handle draw draws "/app/register/" registration entered)
      (λ url h. (url, refl))

abbrev anns_session : Session
anns_session = record { user = some 3; expiry = some 2592000 }

handled :
    handle documented platform settings auth
      (λ path. path)
      draw
      draws
      "/app/login/"
      logging_in
      with_ann
    ≡ (ok (redirect_to "/app/", anns_session), with_ann)
unfolding handle resolve reverse login_view valid_login clean resolve_username log_in next_url
handled = refl

session_user_granted_example :
    (logging_in.session.user ≡ some 3)
    ⊎ (HasPassword auth logging_in 3 with_ann ⊎ Joined auth draw logging_in 3 with_ann with_ann)
session_user_granted_example =
    session_user_granted auth auth_laws draw documented platform settings (λ path. path) draws
      "/app/login/" logging_in with_ann (redirect_to "/app/") anns_session with_ann 3 handled refl

-- A user whom the command line made, with the email of the registration.
abbrev root : User
root = record ann { id = 1; username = "root" }

abbrev with_root : World
with_root = record empty { db = record empty.db { users = root ∷ [] } }

register_shadows_example :
    let after = (register_view auth draw registration with_root).1 in
    (after.db.users ≡ root ∷ ann ∷ [])
    × (login_view auth logging_in after ≡ (err (unexpected "MultipleObjectsReturned"), after))
unfolding valid_registration
register_shadows_example =
    register_shadows auth draw registration logging_in "ann@example.com" "pw" with_root root
      (refl, refl) refl (λ e. cons≢nil e) refl refl refl (refl, refl) refl
