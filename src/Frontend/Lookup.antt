-- ===== src/Frontend/Lookup.antt =====
-- The login form of frontend/forms/auth.py on any table of users: from the email to a username, and
-- from the username to the user.
use doorito.Base.{
  Bool, false, Option, some, String, List, [], ◌∷◌, ◌≡◌, ◌≢◌, ◌↔◌, ◌⊎◌, inl, inr, refl, sym, ap,
  ◌∙◌, any, arith, filter, str_eq, eq_iff, Bool-cases,
}
use doorito.World.{Result, Error, ok, err}
use doorito.Accounts.Models.{User, has_email}
use doorito.Frontend.Http.{FormData}
use doorito.Frontend.Authentication.{Auth, AuthLaws, Authenticates, get_one}
use doorito.Frontend.Forms.{resolve_username, username_or, clean, valid_login}
use doorito.Frontend.Accounts.{authenticated_as, filter_none}

-- The username that an email stands for: that of the one user with the email, or, where no user
-- has it, the email itself.
abbrev pub Names : List User → String → String → Type 0
Names users email name =
    ((u : User) × (filter (has_email email) users ≡ u ∷ []) × (name ≡ u.username))
    ⊎ ((any (has_email email) users ≡ false) × (name ≡ email))

filter-any : (p : User → Bool) (users : List User) → filter p users ≡ [] → any p users ≡ false
filter-any p [] h = refl
filter-any p (u ∷ us) h = elim (Bool-cases (p u)) [
  | inl passes ↦ absurd (ground (arith, h, passes))
  | inr fails ↦ ground (arith, filter-any p us)
]

resolved-Names :
    (users : List User) (email name : String) (found : List User)
    → filter (has_email email) users ≡ found
    → username_or email (get_one found) ≡ ok name
    → Names users email name
resolved-Names users email name [] h e =
    inr (filter-any (has_email email) users h, ground (arith, e))
resolved-Names users email name (u ∷ []) h e = inl (u, h, ground (arith, e))
resolved-Names users email name (u ∷ v ∷ more) h e = absurd (ground (arith, e))

resolve_username-Names :
    (users : List User) (email name : String)
    → email ≢ ""
    → (resolve_username users email ≡ ok name) ↔ Names users email name
unfolding resolve_username
resolve_username-Names users email name filled = elim (Bool-cases (str_eq email "")) [
  | inl empty ↦ absurd (filled ((eq_iff email "").0 empty))
  | inr written ↦ rw written (
    resolved-Names users email name (filter (has_email email) users) refl,
    λ n. elim n [
      | inl (u, one, same) ↦ rw (one, same) refl
      | inr (free, same) ↦ rw (filter_none (has_email email) users free, same) refl
    ],
  )
]

Result-cases : {A : Type 0} (r : Result A) → ((x : A) × (r ≡ ok x)) ⊎ ((e : Error) × (r ≡ err e))
Result-cases (ok x) = inl (x, refl)
Result-cases (err e) = inr (e, refl)

ok-injective : {s t : String} → Result.ok s ≡ ok t → s ≡ t
ok-injective e = cc

module _ (a : Auth) (laws : AuthLaws a) where
  -- For a form with a well-formed email that is not empty and a password, on any table of users:
  -- the login page accepts the form for a user exactly if the email stands for a name under which
  -- the backend lets this user in with the password, where it stands for the username of the one
  -- user with the email, for itself if no user has the email, and for nothing if several have it.
  pub valid_login-Names :
      (form : FormData) (users : List User) (email password : String) (user : User)
      → a.clean_email form.username ≡ some email
      → email ≢ ""
      → a.clean_text form.password ≡ some password
      → (valid_login a form users ≡ ok (some user))
        ↔ ((name : String) × Names users email name × Authenticates a users name password user)
  unfolding valid_login clean
  valid_login-Names form users email password user e filled p =
      rw (e, p)
        (elim (Result-cases (resolve_username users email)) [
          | inl (name, found) ↦ rw found (
            λ h. (
              name,
              (resolve_username-Names users email name filled).0 found,
              authenticated_as a laws users name password user (ground (arith, h)),
            ),
            λ (other, names, good).
                let same : ok name ≡ ok other =
                  sym found ∙ (resolve_username-Names users email other filled).1 names in
                ap (λ (o : Option User). ok o)
                  (laws.authenticates users name password user
                    (laws.text_required form.password password p) (rw (ok-injective same) good)),
          )
          | inr (error, raised) ↦ rw raised (
            λ h. absurd (ground (arith, h)),
            λ (other, names, good).
                let found : err error ≡ ok other =
                  sym raised ∙ (resolve_username-Names users email other filled).1 names in
                absurd (ground (arith, found)),
          )
        ])
