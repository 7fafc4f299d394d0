-- ===== src/Schema/Statuses.antt =====
-- The classes `Status` of the models, as choices: what a member is stored as, and its label.
use doorito.Base.{String, List, [], ◌∷◌, map}
use doorito.Common.Models.{EventStatus}
use doorito.Portal.Models.{BatchStatus, FileStatus, SessionStatus, PartStatus}
use doorito.Portal.EventOutbox.{PortalEventStatus}

abbrev pub event_choice : EventStatus → String × String
event_choice EventStatus.pending = ("pending", "Pending")
event_choice EventStatus.delivered = ("delivered", "Delivered")
event_choice EventStatus.failed = ("failed", "Failed")

abbrev pub event_choices : List (String × String)
event_choices =
    map event_choice (EventStatus.pending ∷ EventStatus.delivered ∷ EventStatus.failed ∷ [])

abbrev pub batch_choice : BatchStatus → String × String
batch_choice BatchStatus.init = ("init", "Init")
batch_choice BatchStatus.in_progress = ("in_progress", "In Progress")
batch_choice BatchStatus.complete = ("complete", "Complete")
batch_choice BatchStatus.partial = ("partial", "Partial")
batch_choice BatchStatus.failed = ("failed", "Failed")

abbrev pub batch_choices : List (String × String)
batch_choices = map batch_choice (
    BatchStatus.init ∷ BatchStatus.in_progress ∷ BatchStatus.complete ∷ BatchStatus.partial
    ∷ BatchStatus.failed ∷ [])

abbrev pub file_choice : FileStatus → String × String
file_choice FileStatus.uploading = ("uploading", "Uploading")
file_choice FileStatus.stored = ("stored", "Stored")
file_choice FileStatus.failed = ("failed", "Failed")

abbrev pub file_choices : List (String × String)
file_choices = map file_choice (FileStatus.uploading ∷ FileStatus.stored ∷ FileStatus.failed ∷ [])

abbrev pub session_choice : SessionStatus → String × String
session_choice SessionStatus.init = ("init", "Init")
session_choice SessionStatus.in_progress = ("in_progress", "In Progress")
session_choice SessionStatus.complete = ("complete", "Complete")
session_choice SessionStatus.failed = ("failed", "Failed")
session_choice SessionStatus.aborted = ("aborted", "Aborted")

abbrev pub session_choices : List (String × String)
session_choices = map session_choice (
    SessionStatus.init ∷ SessionStatus.in_progress ∷ SessionStatus.complete ∷ SessionStatus.failed
    ∷ SessionStatus.aborted ∷ [])

abbrev pub part_choice : PartStatus → String × String
part_choice PartStatus.pending = ("pending", "Pending")
part_choice PartStatus.received = ("received", "Received")
part_choice PartStatus.failed = ("failed", "Failed")

abbrev pub part_choices : List (String × String)
part_choices = map part_choice (PartStatus.pending ∷ PartStatus.received ∷ PartStatus.failed ∷ [])

abbrev pub portal_event_choice : PortalEventStatus → String × String
portal_event_choice PortalEventStatus.pending = ("pending", "Pending")
portal_event_choice PortalEventStatus.delivered = ("delivered", "Delivered")
portal_event_choice PortalEventStatus.failed = ("failed", "Failed")

abbrev pub portal_event_choices : List (String × String)
portal_event_choices =
    map portal_event_choice
      (PortalEventStatus.pending ∷ PortalEventStatus.delivered ∷ PortalEventStatus.failed ∷ [])
