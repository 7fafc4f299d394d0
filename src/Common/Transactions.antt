-- ===== src/Common/Transactions.antt =====
-- The interface to `django.db.transaction`, which is not part of the repository: `atomic` and
-- `on_commit`, with their documented behaviour. The only callback that the repository registers is
-- `_dispatch`, so the waiting callbacks are counted.
use doorito.Base.{ℕ, zero, suc, ◌+◌, ◌==◌, ◌≡◌, refl, if◌then◌else◌}
use doorito.World.{World, Action, Result, ok, err}
use doorito.Common.Utils.{dispatch}

abbrev pub enter : World → World
enter w = record w { depth = w.depth + 1 }

unfoldable pub run_hooks : ℕ → World → World
unfolding dispatch
run_hooks zero w = w
run_hooks (suc n) w = run_hooks n (dispatch w).1

-- The end of the outermost block is the commit: the callbacks run. An inner block keeps them.
unfoldable pub commit : World → World
unfolding run_hooks
commit w = if w.depth == 0 then run_hooks w.hooks (record w { hooks = 0 }) else w

-- An exception undoes the writes to the database and forgets the callbacks of the block.
unfoldable pub finish : {A : Type 0} → World → Result A × World → Result A × World
unfolding commit
finish w (ok a, w') = (ok a, commit (record w' { depth = w.depth }))
finish w (err e, w') = (err e, record w' { db = w.db; hooks = w.hooks; depth = w.depth })

-- Outside every block a callback runs at once.
unfoldable pub register : World → World
unfolding dispatch
register w = if w.depth == 0 then (dispatch w).1 else record w { hooks = w.hooks + 1 }

pub record Transactions : Type 1 where
  pub atomic : (A : Type 0) → Action A → Action A
  pub on_commit : Action (Unit {0})
  pub atomic_runs : (A : Type 0) (m : Action A) (w : World) → atomic A m w ≡ finish w (m (enter w))
  pub on_commit_runs : (w : World) → on_commit w ≡ (ok tt, register w)

-- An instance: the documented behaviour itself.
abbrev pub documented : Transactions
documented = record {
  atomic = λ A m w. finish w (m (enter w));
  on_commit = λ w. (ok tt, register w);
  atomic_runs = λ A m w. refl;
  on_commit_runs = λ w. refl;
}
