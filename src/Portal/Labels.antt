-- ===== src/Portal/Labels.antt =====
-- The `__str__` methods of portal/models.py; `str_uuid` stands for `str` of a primary key.
use Prim.Native.String.{◌++◌}
use doorito.Base.{ℕ, String}
use doorito.Base.Text.{show}
use doorito.Portal.Models.{UploadBatch, UploadFile, UploadSession, UploadPart}
use doorito.Portal.EventOutbox.{PortalEventOutbox}
use doorito.Schema.Statuses.{batch_choice, file_choice, session_choice, portal_event_choice}

unfoldable pub str_batch : (ℕ → String) → UploadBatch → String
str_batch str_uuid b = "Batch " ++ (str_uuid b.id ++ (" (" ++ ((batch_choice b.status).1 ++ ")")))

unfoldable pub str_file : UploadFile → String
str_file f = f.original_filename ++ (" (" ++ ((file_choice f.status).1 ++ ")"))

unfoldable pub str_session : (ℕ → String) → UploadSession → String
str_session str_uuid s =
    "Session " ++ (str_uuid s.id ++ (" (" ++ ((session_choice s.status).1 ++ ")")))

unfoldable pub str_part : (ℕ → String) → UploadPart → String
str_part str_uuid q = "Part " ++ (show q.part_number ++ (" of session " ++ str_uuid q.session))

unfoldable pub str_portal_event : PortalEventOutbox → String
str_portal_event e = e.event_type ++ (" (" ++ ((portal_event_choice e.status).1 ++ ")"))
