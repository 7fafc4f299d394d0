-- ===== src/Schema/Overflow.antt =====
-- The username that frontend/forms/auth.py makes of an email, against its column.
use Prim.Native.String.{count}
use doorito.Base.{
  ◌<◌, ◌≤◌, ◌≡◌, refl, ap, ◌∙◌, true, false, some, String, [], ◌∷◌, ◌++◌, any, arith,
}
use doorito.Base.Table.{has}
use doorito.World.{World}
use doorito.Accounts.Models.{user_pk, has_username}
use doorito.Frontend.Http.{HttpRequest}
use doorito.Frontend.Authentication.{Auth}
use doorito.Frontend.Forms
use doorito.Frontend.Forms.{new_user, valid_registration}
use doorito.Frontend.Login.{register_view, next_url}
use doorito.Frontend.Redirect.{redirect_next_state}
use doorito.Frontend.Registration.{Submits, register_fresh}
use doorito.Schema.Migrator.{Migrator, target, run, steps}
use doorito.Schema.Plan.{plan, Start}
use doorito.Schema.Built.{migrated}
use doorito.Schema.Agreement.{plan-run}
use doorito.Schema.Cells.{user_cell}
use doorito.Schema.Lengths.{fits_column}

long_username :
    (a : Auth) (address password : String) (draw : Forms.Draw)
    → 150 < count address
    → count address ≤ 254
    → let row = user_cell (new_user a address password draw) in
      (fits_column (migrated "accounts.user") "email" row ≡ true)
      × (fits_column (migrated "accounts.user") "username" row ≡ false)
unfolding migrated target
long_username a address password draw long short = (ground arith, ground arith)

-- If an anonymous visitor posts a valid registration form, under a fresh key and with an email of 151
-- to 254 characters that is not taken, the view writes a user whose email fits its column, as the
-- migrations of the three apps build it, and whose username, which `save` sets to the email, does not.
pub register_too_long {ℓ} :
    {S : Type ℓ} (mg : Migrator S) (start : S) (a : Auth) (draw : Forms.Draw)
    (request : HttpRequest) (address password : String) (w : World)
    → Start mg start
    → Submits request
    → valid_registration a request.form ≡ some (address, password)
    → has user_pk draw.id w.db.users ≡ false
    → any (has_username address) w.db.users ≡ false
    → 150 < count address
    → count address ≤ 254
    → let user = new_user a address password draw in
      (s : S) × (run mg (steps plan) start ≡ some s)
      × ((register_view a draw request w).1.db.users ≡ w.db.users ++ user ∷ [])
      × (fits_column (mg.model s "accounts.user") "email" (user_cell user) ≡ true)
      × (fits_column (mg.model s "accounts.user") "username" (user_cell user) ≡ false)
unfolding target
register_too_long mg start a draw request address password w begin submits valid fresh free long
      short =
    let (s, ran, models) = plan-run mg start begin in
    let user = new_user a address password draw in
    let (fits_email, no_fit) = long_username a address password draw long short in
    let w' = record w { db = record w.db { users = w.db.users ++ user ∷ [] } } in
    let state : (register_view a draw request w).1 ≡ w' =
      ap (λ r. r.1) (register_fresh a draw request address password w submits valid fresh free)
      ∙ redirect_next_state a (a.login user request.session) (next_url request) w' in
    (
      s,
      ran,
      ap (λ (v : World). v.db.users) state,
      rw (models "accounts.user" refl) fits_email,
      rw (models "accounts.user" refl) no_fit,
    )
