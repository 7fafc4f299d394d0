-- ===== src/Schema/Fields.antt =====
-- Models as `django.db.models` describes them: columns with their arguments, and the options of a
-- model. An argument that is not given has Django's default. `serialize`, `auto_created`, validators
-- and error messages are left out.
use doorito.Base.{
  ℕ, Bool, true, false, Option, none, some, String, List, [], ◌∷◌, str_eq, if◌then◌else◌,
}

-- `on_delete`
pub data OnDelete : Type 0 where
  cascade set_null : OnDelete

-- `default`; `uuid7` and `timezone.now` are called for each row.
pub data Default : Type 0 where
  no_default uuid7 time_now empty_dict empty_list : Default
  text_value : String → Default
  number_value : ℕ → Default
  truth_value : Bool → Default

-- The class of a column, with the arguments that only this class takes: `max_length`, or `to`,
-- `on_delete` and `related_name`.
pub data Kind : Type 0 where
  -- `auto_now_add` and `auto_now`
  date_time : Bool → Bool → Kind
  uuid text positive_integer positive_big_integer big_auto boolean : Kind
  char url email : ℕ → Kind
  -- whether the encoder is `DjangoJSONEncoder`
  json : Bool → Kind
  -- `upload_to`
  file : String → Kind
  foreign_key one_to_one : String → OnDelete → String → Kind
  -- `to`, `related_name`, `related_query_name`
  many_to_many : String → String → String → Kind

-- The model that a column refers to.
abbrev pub refers : Kind → List String
refers (foreign_key to on_delete related_name) = to ∷ []
refers (one_to_one to on_delete related_name) = to ∷ []
refers (many_to_many to related_name related_query_name) = to ∷ []
refers _ = []

pub record Field : Type 0 where
  pub kind : Kind
  pub primary_key : Bool
  pub unique : Bool
  pub db_index : Bool
  pub null : Bool
  pub blank : Bool
  pub editable : Bool
  pub default : Default
  pub choices : List (String × String)
  pub verbose_name : String
  pub help_text : String

-- A column of which only the class is given.
abbrev pub field : Kind → Field
field k = record {
  kind = k;
  primary_key = false;
  unique = false;
  db_index = false;
  null = false;
  blank = false;
  editable = true;
  default = no_default;
  choices = [];
  verbose_name = "";
  help_text = "";
}

-- `models.Index`; the condition is a list of equations.
pub record Index : Type 0 where
  pub fields : List String
  pub condition : List (String × String)
  pub name : String

-- `models.UniqueConstraint`
pub record UniqueConstraint : Type 0 where
  pub fields : List String
  pub name : String

-- The class `Meta` of a model.
pub record Options : Type 0 where
  pub db_table : String
  pub verbose_name : String
  pub verbose_name_plural : String
  pub ordering : List String
  pub indexes : List Index
  pub constraints : List UniqueConstraint

pub record Model : Type 0 where
  pub fields : List (String × Field)
  pub options : Options

-- The column of this name.
abbrev pub column : String → List (String × Field) → Option Field
column f [] = none
column f ((g, x) ∷ rest) = if str_eq f g then some x else column f rest
