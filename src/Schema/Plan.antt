-- ===== src/Schema/Plan.antt =====
-- The migrations of the project in an order that Django may run them in, and what they make of the
-- models: by name, without the states in between.
use doorito.Base.{
  Bool, true, false, Option, none, some, String, List, [], ◌∷◌, str_eq, if◌then◌else◌, not, any,
  ◌&&◌, ◌||◌, map, ◌≡◌,
}
use doorito.Schema.Fields.{Model}
use doorito.Schema.Migrator.{
  Operation, Migration, Migrator, target, change, steps, dangling, is_some,
}
use doorito.Schema.Accounts.{accounts_0001}
use doorito.Schema.Events.{common_0001, common_0002}
use doorito.Schema.Uploads.{portal_0001}
use doorito.Schema.Portal.{portal_0002}

abbrev pub plan : List Migration
plan = accounts_0001 ∷ common_0001 ∷ common_0002 ∷ portal_0001 ∷ portal_0002 ∷ []

-- The history of one model: the operations that name it, in order.
abbrev pub history : String → List (String × Operation) → Option Model → Option (Option Model)
history n [] m = some m
history n (op ∷ ops) m =
    if str_eq n (target op)
    then elim (change op.1 m) [ none ↦ none | some m' ↦ history n ops (some m') ]
    else history n ops m

-- The dependency is met by a migration that ran before; `__first__` is any migration of the app.
abbrev met : List Migration → String × String → Bool
met [] d = false
met (m ∷ before) (app, name) =
    (str_eq m.app app && (str_eq name "__first__" || str_eq m.name name)) || met before (app, name)

-- A dependency on Django's own app is met by Django.
abbrev met_or_django : List Migration → String × String → Bool
met_or_django before d = str_eq d.0 "auth" || met before d

-- Every migration of the order comes after what it depends on.
abbrev pub in_order : List Migration → List Migration → Bool
in_order before [] = true
in_order before (m ∷ rest) =
    not (any (λ d. not (met_or_django before d)) m.dependencies) && in_order (m ∷ before) rest

-- The models of Django's app `auth` that a user refers to.
abbrev pub in_django : String → Bool
in_django n = str_eq n "auth.group" || str_eq n "auth.permission"

-- Every operation refers only to models that are there, or that an operation before it makes.
abbrev pub referred : (String → Bool) → List (String × Operation) → Bool
referred there [] = true
referred there (op ∷ ops) =
    not (dangling there op) && referred (λ n. str_eq n (target op) || there n) ops

-- The name is that of a model that the operations of the plan change.
abbrev pub own : String → Bool
own n = any (str_eq n) (map target (steps plan))

-- Before the migrations of the three apps: the models of `auth` are there, and none of theirs.
pub record Start {ℓ} {S : Type ℓ} (mg : Migrator S) (s : S) : Type ℓ where
  pub django : (n : String) → in_django n ≡ true → is_some (mg.model s n) ≡ true
  pub bare : (n : String) → own n ≡ true → mg.model s n ≡ none
