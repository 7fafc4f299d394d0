-- ===== src/Frontend/Redirect.antt =====
-- The redirect that ends a login or a registration (frontend/views/auth.py).
use doorito.Base.{Option, none, some, String, ◌≡◌, refl}
use doorito.World.{World, Result, ok, err}
use doorito.Frontend.Http.{Session}
use doorito.Frontend.Authentication.{Auth}
use doorito.Frontend.Login.{Answer, redirected, redirect_next}

module _ (a : Auth) where
  redirected_state : (s : Session) (to : Option String) (w : World) → (redirected a s to w).1 ≡ w
  redirected_state s (some url) w = refl
  redirected_state s none w = refl

  pub redirect_next_state :
      (s : Session) (next : Option String) (w : World) → (redirect_next a s next w).1 ≡ w
  redirect_next_state s (some next) w = redirected_state s (a.resolve_url next) w
  redirect_next_state s none w = refl

  -- The session of an answer, if there is an answer.
  abbrev pub Leaves : Session → Result Answer → Type 0
  Leaves s (ok (response, session)) = session ≡ s
  Leaves s (err e) = Unit

  redirected-Leaves :
      (s : Session) (to : Option String) (w : World) → Leaves s (redirected a s to w).0
  redirected-Leaves s (some url) w = refl
  redirected-Leaves s none w = tt

  pub redirect_next-Leaves :
      (s : Session) (next : Option String) (w : World) → Leaves s (redirect_next a s next w).0
  redirect_next-Leaves s (some next) w = redirected-Leaves s (a.resolve_url next) w
  redirect_next-Leaves s none w = refl
