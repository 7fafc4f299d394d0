-- ===== src/Frontend/Accounts.antt =====
-- The table of users as registration (frontend/forms/auth.py) keeps it, and what the login form
-- finds in it.
use doorito.Base.{
  Bool, true, false, Option, none, some, String, List, [], ◌∷◌, ◌++◌, ◌≡◌, ◌↔◌, ◌⊎◌, inl, inr, refl,
  sym, ap, All, any, arith, filter, str_eq, eq_iff, Bool-cases,
}
use doorito.World.{ok, err, does_not_exist}
use doorito.Accounts.Models.{User, has_email, has_username}
use doorito.Frontend.Http.{FormData}
use doorito.Frontend.Authentication.{Auth, AuthLaws, Authenticates, get_one}
use doorito.Frontend.Forms.{resolve_username, clean, valid_login}

-- Every user's name is the email, and no two users have the same name.
abbrev pub NamedByEmail : List User → Type 0
NamedByEmail = All (λ (u : User). u.email ≡ u.username)

abbrev pub DistinctNames : List User → Type 0
DistinctNames [] = Unit
DistinctNames (u ∷ us) = (any (has_username u.username) us ≡ false) × DistinctNames us

abbrev pub IsAccountTable : List User → Type 0
IsAccountTable users = NamedByEmail users × DistinctNames users

pub filter-same :
    (email : String) (users : List User)
    → NamedByEmail users
    → filter (has_email email) users ≡ filter (has_username email) users
filter-same email [] n = refl
filter-same email (u ∷ us) n = rw (n.0, filter-same email us n.1) refl

pub any-same :
    (email : String) (users : List User)
    → NamedByEmail users
    → any (has_email email) users ≡ any (has_username email) users
any-same email [] n = refl
any-same email (u ∷ us) n = rw (n.0, any-same email us n.1) refl

pub filter_none : (p : User → Bool) (users : List User) → any p users ≡ false → filter p users ≡ []
filter_none p [] h = refl
filter_none p (u ∷ us) h = ground (arith, filter_none p us)

pub filter-snoc :
    (p : User → Bool) (user : User) (users : List User)
    → any p users ≡ false
    → p user ≡ true
    → filter p (users ++ user ∷ []) ≡ user ∷ []
filter-snoc p user [] h y = rw y refl
filter-snoc p user (u ∷ us) h y = ground (arith, filter-snoc p user us)

-- A name stands for at most one user.
pub one_or_none :
    (name : String) (users : List User)
    → DistinctNames users
    → (get_one (filter (has_username name) users) ≡ err does_not_exist)
      ⊎ ((u : User) × (u.username ≡ name) × (get_one (filter (has_username name) users) ≡ ok u))
one_or_none name [] d = inl refl
one_or_none name (u ∷ us) d = elim (Bool-cases (str_eq u.username name)) [
  | inl same ↦
      let alone : any (has_username name) us ≡ false =
        rw (sym ((eq_iff u.username name).0 same)) d.0 in
      inr (
        u,
        (eq_iff u.username name).0 same,
        rw (same, filter_none (has_username name) us alone) refl,
      )
  | inr differs ↦ rw differs (one_or_none name us d.1)
]

apart : (s t : String) → str_eq s t ≡ false → str_eq t s ≡ false
apart s t h = elim (Bool-cases (str_eq t s)) [
  | inl same ↦
      let eq : t ≡ s = (eq_iff t s).0 same in absurd (ground (arith, h, (eq_iff s t).1 (sym eq)))
  | inr differs ↦ differs
]

-- A user of a new name joins the table of accounts.
NamedByEmail-snoc :
    (user : User) (users : List User)
    → NamedByEmail users
    → user.email ≡ user.username
    → NamedByEmail (users ++ user ∷ [])
NamedByEmail-snoc user [] n e = (e, tt)
NamedByEmail-snoc user (u ∷ us) n e = (n.0, NamedByEmail-snoc user us n.1 e)

any-snoc :
    (p : User → Bool) (user : User) (users : List User)
    → any p users ≡ false
    → p user ≡ false
    → any p (users ++ user ∷ []) ≡ false
any-snoc p user [] h n = rw n refl
any-snoc p user (u ∷ us) h n = ground (arith, any-snoc p user us)

DistinctNames-snoc :
    (user : User) (users : List User)
    → DistinctNames users
    → any (has_username user.username) users ≡ false
    → DistinctNames (users ++ user ∷ [])
DistinctNames-snoc user [] d free = (refl, tt)
DistinctNames-snoc user (u ∷ us) d free = (
  any-snoc (has_username u.username) user us d.0 (apart u.username user.username (ground arith)),
  DistinctNames-snoc user us d.1 (ground arith),
)

pub IsAccountTable-snoc :
    (user : User) (users : List User)
    → IsAccountTable users
    → user.email ≡ user.username
    → any (has_username user.username) users ≡ false
    → IsAccountTable (users ++ user ∷ [])
IsAccountTable-snoc user users (named, distinct) e free =
    (NamedByEmail-snoc user users named e, DistinctNames-snoc user users distinct free)

-- What the login form means to find: the one active user with this email and password.
abbrev pub Matches : Auth → List User → String → String → User → Type 0
Matches a users email password user =
    (get_one (filter (has_email email) users) ≡ ok user)
    × (a.check_password password user.password ≡ true)
    × (user.is_active ≡ true)

module _ (a : Auth) (laws : AuthLaws a) where
  -- The email stands for itself as a name, whether or not it has an account.
  pub resolve_username_self :
      (users : List User) (email : String)
      → IsAccountTable users
      → resolve_username users email ≡ ok email
  unfolding resolve_username
  resolve_username_self users email t = elim (Bool-cases (str_eq email "")) [
    | inl empty ↦ rw empty refl
    | inr filled ↦
        rw (filled, filter-same email users t.0)
          (elim (one_or_none email users t.1) [
            | inl missing ↦ rw missing refl
            | inr (u, same, found) ↦ rw (found, same) refl
          ])
  ]

  pub clean-eq :
      (users : List User) (email : Option String) (password : Option String)
      → IsAccountTable users
      → clean a users email password ≡ ok (a.authentication_clean users email password)
  unfolding clean
  clean-eq users none password t = refl
  clean-eq users (some email) password t = rw (resolve_username_self users email t) refl

  pub authenticated_as :
      (users : List User) (username password : String) (user : User)
      → a.authentication_clean users (some username) (some password) ≡ some user
      → Authenticates a users username password user
  authenticated_as users username password user h =
      let (name, word, is_name, is_word, good) =
        laws.authenticated users (some username) (some password) user h in
      let same_name : username ≡ name = ground arith in
      let same_word : password ≡ word = ground arith in rw (same_name, same_word) good

  -- In a table of accounts, for a form with a well-formed email and a password, the form of the
  -- login page, which goes from the email to a username and then asks the backend for that
  -- username, accepts the form for a user exactly if this user is the one with the email, the
  -- password passes and the user is active.
  pub valid_login-Matches :
      (form : FormData) (users : List User) (email password : String) (user : User)
      → IsAccountTable users
      → a.clean_email form.username ≡ some email
      → a.clean_text form.password ≡ some password
      → (valid_login a form users ≡ ok (some user)) ↔ Matches a users email password user
  unfolding valid_login
  valid_login-Matches form users email password user t e p =
      let same = filter-same email users t.0 in
      rw (e, p, clean-eq users (some email) (some password) t, same)
        (
          (λ h. authenticated_as users email password user (ground (arith, h))),
          λ m.
              ap (λ (o : Option User). ok o)
                (laws.authenticates users email password user
                  (laws.text_required form.password password p) m),
        )
