-- ===== src/Schema/LengthExamples.antt =====
-- Widths on sample data: a short history of the outbox, and an email of 162 characters.
use doorito.Base.{◌≡◌, All, refl, true, false, none, some, String, [], ◌∷◌, arith}
use doorito.Common.Transactions.{documented}
use doorito.Common.Sample
use doorito.Common.Sample.{empty}
use doorito.Common.Outbox.Emit.{emit_event}
use doorito.Common.Outbox.History.{emit, process}
use doorito.Common.Outbox.Process.{process_pending_events}
use doorito.Frontend.Http.{HttpRequest, Method}
use doorito.Frontend.Forms
use doorito.Frontend.Forms.{new_user, valid_registration}
use doorito.Frontend.Login.{register_view}
use doorito.Frontend.SampleAuth.{auth}
use doorito.Frontend.Examples.{no_fields}
use doorito.Frontend.LoginExamples.{asking}
use doorito.Schema.Migrator.{run, steps}
use doorito.Schema.Plan.{plan}
use doorito.Schema.Cells.{event_cell, user_cell}
use doorito.Schema.Lengths.{fits, fits_column}
use doorito.Schema.Fitting.{Kept, begin, further, history_fits}
use doorito.World.{World}
use doorito.Schema.Overflow.{register_too_long}
use doorito.Schema.ByName.{Named, by_name, auth_models, auth_models-Start}

-- An emission, and a delivery run after it.
abbrev emitted : World
emitted = (emit_event documented "UploadFile" "7" "file.stored" none none Sample.draw empty).1

abbrev delivered_world : World
delivered_world = (process_pending_events documented Sample.http Sample.run 20 emitted).1

kept : Kept documented Sample.http empty delivered_world
kept =
    further
      (further begin (emit "UploadFile" "7" "file.stored" none none Sample.draw empty)
        (omega arith, omega arith, omega arith, tt))
      (process Sample.run 20 emitted) tt

history_fits_example :
    (s : Named) × (run by_name (steps plan) auth_models ≡ some s)
    × All (λ e. fits (s "common.outboxevent") (event_cell e) ≡ true) delivered_world.db.outbox
history_fits_example =
    history_fits by_name auth_models documented Sample.http {start = empty} {w = delivered_world}
      auth_models-Start (refl, refl) refl kept

abbrev long_email : String
long_email =
    "aaaaaaaaaaaaaaaaaaaaaaaaaaaaaaaaaaaaaaaaaaaaaaaaaaaaaaaaaaaaaaaaaaaaaaaaaaaaaaaaaaaaaaaaaaaaaaaaaaaaaaaaaaaaaaaaaaaaaaaaaaaaaaaaaaaaaaaaaaaaaaaaaaaaaa@example.com"

abbrev registration : HttpRequest
registration = record asking {
  method = Method.post;
  form = record no_fields { email = long_email; password1 = "pw"; password2 = "pw" };
}

abbrev draw : Forms.Draw
draw = record { id = 3; salt = 8 }

register_too_long_example :
    (s : Named) × (run by_name (steps plan) auth_models ≡ some s)
    × ((register_view auth draw registration empty).1.db.users
        ≡ new_user auth long_email "pw" draw ∷ [])
    × (fits_column (s "accounts.user") "email" (user_cell (new_user auth long_email "pw" draw))
        ≡ true)
    × (fits_column (s "accounts.user") "username" (user_cell (new_user auth long_email "pw" draw))
        ≡ false)
unfolding valid_registration
register_too_long_example =
    register_too_long by_name auth_models auth draw registration long_email "pw" empty
      auth_models-Start (refl, refl) refl refl refl (omega arith) (omega arith)
