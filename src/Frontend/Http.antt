-- ===== src/Frontend/Http.antt =====
-- Requests, sessions and answers, as the views of frontend/views see them. Templates, and what the
-- messages framework does with a message, are left out.
use doorito.Base.{ℕ, Bool, Option, String, List}
use doorito.Portal.Models.{UploadBatch, UploadFile}
use doorito.Portal.Files.{UploadedFile}

pub data Method : Type 0 where
  get post other : Method

-- `request.session`, with the user whom it logs in (`request.user`, by primary key).
pub record Session : Type 0 where
  pub user : Option ℕ
  pub expiry : Option ℕ  -- what `set_expiry` was given

-- The fields of the two forms in `request.POST`: a field that is missing is "".
pub record FormData : Type 0 where
  pub username : String
  pub email : String
  pub password : String
  pub password1 : String
  pub password2 : String
  pub remember_me : Bool
  pub next : Option String

pub record HttpRequest : Type 0 where
  pub method : Method
  pub session : Session
  pub htmx : Bool
  pub full_path : String
  pub query_next : Option String  -- `request.GET.get("next")`
  pub form : FormData
  pub files : List UploadedFile

pub data Level : Type 0 where
  success warning error : Level

-- What a view answers.
pub data Response : Type 0 where
  page : Response  -- frontend/upload/index.html
  error_partial : String → Response  -- partials/results.html with an error
  results_partial : List UploadFile → UploadBatch → ℕ → ℕ → Response
  message_and_redirect : Level → String → Response
  to_login : String → Response
  not_allowed : Response
  login_page : Bool → String → Response  -- auth/login.html: whether the form has errors; `next`
  register_page : Bool → String → Response  -- auth/register.html, as above
  dashboard_page : Response
  redirect_to : String → Response
  not_found : Response
  health : Response  -- {"status": "ok"}
