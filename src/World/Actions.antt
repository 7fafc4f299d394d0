-- ===== src/World/Actions.antt =====
-- What a chain of actions does, by what its first part does.
use doorito.Base.{◌≡◌, ap}
use doorito.World.{World, Database, Action, Result, ok, err, continue}

module _ {A B : Type 0} (k : A → Action B) where
  pub continue-db :
      (r : Result A × World) (d : Database)
      → r.1.db ≡ d
      → ((a : A) (v : World) → v.db ≡ d → (k a v).1.db ≡ d)
      → (continue r k).1.db ≡ d
  continue-db (ok a, v) d same rest = rest a v same
  continue-db (err e, v) d same rest = same

  pub continue-ok : (r : Result A × World) (a : A) → r.0 ≡ ok a → continue r k ≡ k a r.1
  continue-ok (ok x, v) a h = let same : x ≡ a = cc in ap (λ (y : A). k y v) same
  continue-ok (err e, v) a h = cc
