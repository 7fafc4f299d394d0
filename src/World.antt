-- ===== src/World.antt =====
-- What the services act on: the database, and what lies outside a transaction. An action may
-- raise; the state comes back beside the error, since what was done before a raise stays done
-- unless a transaction undoes it.
pub mod Actions
use doorito.Base.{ℕ, Bool, String, List}
use doorito.Accounts.Models.{User}
use doorito.Common.Models.{OutboxEvent, WebhookEndpoint}
use doorito.Portal.Models.{UploadBatch, UploadFile, UploadSession, UploadPart}

-- The exceptions that the code raises or meets.
pub data Error : Type 0 where
  integrity_error : Error  -- a unique constraint
  not_updated : Error  -- `save(update_fields=…)` found no row
  does_not_exist : Error  -- `refresh_from_db` found no row
  zero_division : Error
  value_error : String → Error
  validation_error : String → String → Error  -- message and code
  broker_error : Error
  storage_error : Error
  unexpected : String → Error  -- any other exception of a library

pub data Result (A : Type 0) : Type 0 where
  ok : A → Result A
  err : Error → Result A

pub record Database : Type 0 where
  pub outbox : List OutboxEvent
  pub endpoints : List WebhookEndpoint
  pub batches : List UploadBatch
  pub files : List UploadFile
  pub sessions : List UploadSession
  pub parts : List UploadPart
  pub users : List User

-- A POST as the receiver sees it.
pub record Request : Type 0 where
  pub url : String
  pub content : List ℕ
  pub headers : List (String × String)

pub record World : Type 0 where
  pub db : Database
  pub hooks : ℕ  -- delivery dispatches that wait for the outermost commit
  pub depth : ℕ  -- how many `atomic` blocks are open
  pub storage : List String  -- paths in the media storage
  pub broker_up : Bool  -- whether `.delay()` reaches the broker
  pub sent : ℕ  -- delivery tasks handed to the broker
  pub requests : List Request  -- every POST made so far, in order

abbrev pub Action : Type 0 → Type 0
Action A = World → Result A × World

abbrev pub pure : {A : Type 0} → A → Action A
pure a w = (ok a, w)

abbrev pub raise : {A : Type 0} → Error → Action A
raise e w = (err e, w)

abbrev pub continue : {A B : Type 0} → Result A × World → (A → Action B) → Result B × World
continue (ok a, w) f = f a w
continue (err e, w) f = (err e, w)

infixl 5 ◌>>=◌ ◌>>◌
abbrev pub ◌>>=◌ : {A B : Type 0} → Action A → (A → Action B) → Action B
◌>>=◌ m f w = continue (m w) f

abbrev pub ◌>>◌ : {A B : Type 0} → Action A → Action B → Action B
m >> k = m >>= λ _. k

abbrev pub gets : {A : Type 0} → (World → A) → Action A
gets f w = (ok (f w), w)
