-- ===== src/Schema/Cells.antt =====
-- The rows of the tables, column by column.
use doorito.Base.{ℕ, Bool, false, ◌==◌, String, str_eq, if◌then◌else◌}
use doorito.Common.Models.{OutboxEvent}
use doorito.Portal.Models.{UploadSession, UploadPart}
use doorito.Accounts.Models.{User}
use doorito.Schema.Statuses.{event_choice}

-- A value in a column.
pub data Cell : Type 0 where
  key : ℕ → Cell
  words : String → Cell
  unmodelled : Cell

-- Equal values; a column that the rows of the model leave out is never equal.
abbrev pub same_cell : Cell → Cell → Bool
same_cell (key a) (key b) = a == b
same_cell (words s) (words t) = str_eq s t
same_cell _ _ = false

abbrev pub event_cell : OutboxEvent → String → Cell
event_cell e c =
    if str_eq c "id"
    then key e.id
    else if str_eq c "event_type"
    then words e.event_type
    else if str_eq c "aggregate_type"
    then words e.aggregate_type
    else if str_eq c "aggregate_id"
    then words e.aggregate_id
    else if str_eq c "status"
    then words (event_choice e.status).0
    else if str_eq c "idempotency_key"
    then words e.idempotency_key
    else unmodelled

abbrev pub session_cell : UploadSession → String → Cell
session_cell s c =
    if str_eq c "id" then key s.id else if str_eq c "file" then key s.file else unmodelled

abbrev pub part_cell : UploadPart → String → Cell
part_cell q c =
    if str_eq c "id"
    then key q.id
    else if str_eq c "session"
    then key q.session
    else if str_eq c "part_number"
    then key q.part_number
    else unmodelled

abbrev pub user_cell : User → String → Cell
user_cell u c =
    if str_eq c "id"
    then key u.id
    else if str_eq c "username"
    then words u.username
    else if str_eq c "email"
    then words u.email
    else if str_eq c "password"
    then words u.password
    else unmodelled
