-- ===== src/Schema/Examples.antt =====
-- The migrations of the project, run by a sample migrator.
use doorito.Base.{none, ◌≡◌, refl, ◌⊎◌, true, false, some, String, List, [], ◌∷◌}
use doorito.Schema.Migrator.{Operation, target, run, steps}
use doorito.Schema.ByName.{Named, by_name, auth_models, auth_models-Start}
use doorito.Schema.Plan.{plan, in_order, in_django, referred}
use doorito.Schema.Accounts.{accounts_0001}
use doorito.Schema.Events.{common_0001, common_0002}
use doorito.Schema.Uploads.{portal_0001}
use doorito.Schema.Portal.{portal_0002}
use doorito.Schema.Declared.{declared}
use doorito.Schema.Runs.{Reordered, swapped, run-dangling}
use doorito.Schema.Same.{SameModel}
use doorito.Schema.Agreement.{plan-Declares, index_name}

-- The first migrations of accounts and common in the other order.
abbrev other_order : List (String × Operation)
other_order = steps (common_0001 ∷ accounts_0001 ∷ common_0002 ∷ portal_0001 ∷ portal_0002 ∷ [])

other_order-Reordered : Reordered (steps plan) other_order
unfolding target
other_order-Reordered = swapped _ _ _ refl

other_order-referred : referred in_django other_order ≡ true
unfolding target
other_order-referred = refl

plan-Declares_example :
    (s : Named) × (run by_name other_order auth_models ≡ some s)
    × ((n : String)
        → (n ≡ "accounts.user")
          ⊎ (SameModel (s n) (declared index_name n)
              ⊎ ((declared index_name n ≡ none) × (s n ≡ auth_models n))))
plan-Declares_example =
    plan-Declares index_name refl refl by_name auth_models other_order auth_models-Start
      other_order-Reordered other_order-referred

-- The migrations of portal before those of accounts: the first model refers to the user's.
portal_first : run by_name (steps (portal_0001 ∷ accounts_0001 ∷ [])) auth_models ≡ none
unfolding target
portal_first = run-dangling by_name _ _ auth_models refl

plan-in_order : in_order [] plan ≡ true
plan-in_order = refl

late_user : in_order [] (common_0001 ∷ portal_0001 ∷ accounts_0001 ∷ []) ≡ false
late_user = refl
