-- ===== src/Frontend/Shadowing.antt =====
-- Two users with one email (frontend/forms/auth.py): the column `email` is not unique, and a user
-- whom the admin or the command line made may have another username.
use doorito.Base.{
  str_eq_ne, true, false, Bool, some, String, List, [], ◌∷◌, ◌++◌, ◌≡◌, ◌≢◌, refl, ap, ◌∙◌, any,
  arith, filter, str_eq_refl, Bool-cases, inl, inr,
}
use doorito.Base.Table.{has}
use doorito.World.{World, ok, err, unexpected}
use doorito.Accounts.Models.{User, has_email, has_username, user_pk}
use doorito.Frontend.Http.{HttpRequest}
use doorito.Frontend.Authentication.{Auth, get_one}
use doorito.Frontend.Forms.{
  Draw, resolve_username, clean, valid_login, valid_registration, new_user,
}
use doorito.Frontend.Login.{login_view, register_view, next_url}
use doorito.Frontend.Redirect.{redirect_next_state}
use doorito.Frontend.Registration.{Submits, login_view_posted, register_fresh, with_user}

filter-append_one :
    (p : User → Bool) (user : User) (users : List User)
    → p user ≡ true
    → filter p (users ++ user ∷ []) ≡ filter p users ++ user ∷ []
filter-append_one p user [] h = rw h refl
filter-append_one p user (u ∷ us) h = elim (Bool-cases (p u)) [
  | inl kept ↦ rw (kept, filter-append_one p user us h) refl
  | inr left_out ↦ rw (left_out, filter-append_one p user us h) refl
]

-- One more row beside the one that `.get(…)` finds is one too many.
get_one_more :
    (users : List User) (user found : User)
    → get_one users ≡ ok found
    → get_one (users ++ user ∷ []) ≡ err (unexpected "MultipleObjectsReturned")
get_one_more [] user found h = absurd (ground (arith, h))
get_one_more (u ∷ []) user found h = refl
get_one_more (u ∷ v ∷ us) user found h = absurd (ground (arith, h))

module _ (a : Auth) (draw : Draw) where
  -- If exactly one user has an email, which is not empty and no user's username, then a valid
  -- registration form with this email, posted by an anonymous visitor under a fresh key, adds a
  -- second user with it; and after that an anonymous login form with this email, whatever its
  -- password, makes the login page raise and changes nothing: neither the old user nor the new one
  -- can log in by it.
  pub register_shadows :
      (registration request : HttpRequest) (email password : String) (w : World) (other : User)
      → Submits registration
      → valid_registration a registration.form ≡ some (email, password)
      → email ≢ ""
      → has user_pk draw.id w.db.users ≡ false
      → any (has_username email) w.db.users ≡ false
      → get_one (filter (has_email email) w.db.users) ≡ ok other
      → Submits request
      → a.clean_email request.form.username ≡ some email
      → let after = (register_view a draw registration w).1 in
        (after.db.users ≡ w.db.users ++ new_user a email password draw ∷ [])
        × (login_view a request after ≡ (err (unexpected "MultipleObjectsReturned"), after))
  unfolding valid_login clean resolve_username
  register_shadows registration request email password w other submits valid filled fresh free owned
        again same =
      let user = new_user a email password draw in
      let state : (register_view a draw registration w).1 ≡ with_user a draw user w =
        ap (λ r. r.1) (register_fresh a draw registration email password w submits valid fresh free)
        ∙ redirect_next_state a (a.login user registration.session) (next_url registration)
            (with_user a draw user w) in
      let two : get_one (filter (has_email email) (w.db.users ++ user ∷ []))
          ≡ err (unexpected "MultipleObjectsReturned") =
        ap get_one (filter-append_one (has_email email) user w.db.users (str_eq_refl email))
        ∙ get_one_more (filter (has_email email) w.db.users) user other owned in
      rw state (
        refl,
        rw
            (
              login_view_posted a request (with_user a draw user w) again,
              same,
              str_eq_ne email "" filled,
              two,
            )
            refl,
      )
