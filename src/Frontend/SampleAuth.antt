-- ===== src/Frontend/SampleAuth.antt =====
-- A small instance of Django's part of the login, with what is documented of it, for the examples.
use Prim.Native.String.{◌++◌}
use doorito.Base.{
  Bool, true, false, Option, none, some, String, List, ◌≡◌, ◌≢◌, refl, sym, ap, ◌∙◌, ◌&&◌, arith,
  filter, str_eq, str_eq_refl, eq_iff, Bool-cases, inl, inr, if◌then◌else◌,
}
use doorito.World.{Result, ok, err}
use doorito.Accounts.Models.{User, has_username}
use doorito.Frontend.Authentication.{Auth, AuthLaws, Authenticates, get_one}

abbrev filled : String → Option String
filled raw = if str_eq raw "" then none else some raw

abbrev checked : String → String → Bool
checked password hash = str_eq ("hash of " ++ password) hash

abbrev allowed : String → Result User → Option User
allowed password (ok user) =
    if checked password user.password && user.is_active then some user else none
allowed password (err e) = none

abbrev accepted_user : List User → Option String → Option String → Option User
accepted_user users (some username) (some password) =
    allowed password (get_one (filter (has_username username) users))
accepted_user users (some username) none = none
accepted_user users none password = none

abbrev same_twice : Option String → Option String → Option String → Option String
same_twice (some email) (some first) (some second) =
    if str_eq first second then some first else none
same_twice (some email) (some first) none = none
same_twice (some email) none second = none
same_twice none first second = none

abbrev pub auth : Auth
auth = record {
  clean_email = filled;
  clean_text = filled;
  make_password = λ password salt. "hash of " ++ password;
  check_password = checked;
  authentication_clean = accepted_user;
  creation_clean = same_twice;
  login = λ user s. record s { user = some user.id };
  logout = λ s. record { user = none; expiry = none };
  set_expiry = λ n s. record s { expiry = some n };
  resolve_url = λ url. some url;
}

filled_required : (raw password : String) → filled raw ≡ some password → password ≢ ""
filled_required raw password h e = elim (Bool-cases (str_eq raw "")) [
  | inl empty ↦ absurd (ground (arith, h, empty))
  | inr kept ↦
      let same : raw ≡ password = ground (arith, h, kept) in
      absurd (ground (arith, kept, (eq_iff raw "").1 (same ∙ e)))
]

allowed_finds :
    (password : String) (r : Result User) (user : User)
    → r ≡ ok user
    → checked password user.password ≡ true
    → user.is_active ≡ true
    → allowed password r ≡ some user
allowed_finds password r user h passes active = rw (h, passes, active) refl

both_true : (p q : Bool) → (p && q) ≡ true → (p ≡ true) × (q ≡ true)
both_true true q h = (refl, h)
both_true false q h = absurd (ground (arith, h))

allowed_finds_only :
    (password : String) (r : Result User) (user : User)
    → allowed password r ≡ some user
    → (r ≡ ok user) × (checked password user.password ≡ true) × (user.is_active ≡ true)
allowed_finds_only password (ok u) user h =
    elim (Bool-cases (checked password u.password && u.is_active)) [
      | inl good ↦
          let same : u ≡ user = ground (arith, h, good) in
          let parts = both_true (checked password u.password) u.is_active good in
          rw⁻¹ same (refl, parts.0, parts.1)
      | inr bad ↦ absurd (ground (arith, h, bad))
    ]
allowed_finds_only password (err e) user h = absurd (ground (arith, h))

accepted_only :
    (users : List User) (username password : Option String) (user : User)
    → accepted_user users username password ≡ some user
    → (name : String) × (word : String) × (username ≡ some name)
      × (password ≡ some word)
      × Authenticates auth users name word user
accepted_only users (some username) (some password) user h = (
  username,
  password,
  refl,
  refl,
  allowed_finds_only password (get_one (filter (has_username username) users)) user h,
)
accepted_only users (some username) none user h = absurd (ground (arith, h))
accepted_only users none password user h = absurd (ground (arith, h))

twice_same :
    (email first second : Option String) (password : String)
    → same_twice email first second ≡ some password
    → (first ≡ some password) × (second ≡ some password) × (email ≢ none)
twice_same (some email) (some first) (some second) password h =
    elim (Bool-cases (str_eq first second)) [
      | inl same ↦
          let eq : first ≡ second = (eq_iff first second).0 same in
          let chosen : some first ≡ some password = ground (arith, h, same) in
          (chosen, ap (λ (s : String). some s) (sym eq) ∙ chosen, λ e. ground (arith, e))
      | inr differs ↦ absurd (ground (arith, h, differs))
    ]
twice_same (some email) (some first) none password h = absurd (ground (arith, h))
twice_same (some email) none second password h = absurd (ground (arith, h))
twice_same none first second password h = absurd (ground (arith, h))

pub auth_laws : AuthLaws auth
auth_laws = record {
  check-make = λ password salt. str_eq_refl ("hash of " ++ password);
  text_required = filled_required;
  authenticates = λ users username password user filled_in h.
      allowed_finds password (get_one (filter (has_username username) users)) user h.0 h.1 h.2;
  authenticated = accepted_only;
  creates = twice_same;
  login_user = λ user s. refl;
  logout_user = λ s. refl;
  expiry_user = λ n s. refl;
  expiry_set = λ n s. refl;
  resolve_path = λ path. refl;
}
