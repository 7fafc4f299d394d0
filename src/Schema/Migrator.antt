-- ===== src/Schema/Migrator.antt =====
-- `django.db.migrations`, which is not part of the repository: what its operations do to the models
-- of a project, as documented, behind the interface `Migrator`.
use Prim.Native.Char.{Char, code}
use Prim.Native.String.{◌++◌ as ◌+++◌}
use doorito.Base.{
  ℕ, zero, suc, ◌-◌, ◌≡◌, Bool, ◌&&◌, leb, ◌==◌, Option, none, some, String, List, [], ◌∷◌, ◌++◌,
  str_eq, if◌then◌else◌, true, false, any, not, ◌||◌, ◌⊎◌,
}
use doorito.Schema.Fields.{Field, Index, UniqueConstraint, Options, Model, refers}

pub data Operation : Type 0 where
  create_model : String → List (String × Field) → Options → Operation
  alter_model_table : String → String → Operation
  -- model, new name, old name
  rename_index : String → String → String → Operation
  alter_field : String → String → Field → Operation
  add_index : String → Index → Operation
  add_constraint : String → UniqueConstraint → Operation

-- `class Migration`, with the app and the name of its file.
pub record Migration : Type 0 where
  pub app : String
  pub name : String
  pub initial : Bool
  pub dependencies : List (String × String)
  pub operations : List Operation

abbrev letter : ℕ → String → Char → Char
letter n String.[] c = c
letter zero (String.◌∷◌ d s) c = d
letter (suc n) (String.◌∷◌ d s) c = letter n s c

-- `name.lower()`, for the names of models.
abbrev pub lower : String → String
lower String.[] = ""
lower (String.◌∷◌ c s) =
    String.◌∷◌
      (if leb 65 (code c) && leb (code c) 90
        then letter (code c - 65) "abcdefghijklmnopqrstuvwxyz" c
        else c)
      (lower s)

abbrev model_name : Operation → String
model_name (create_model name fields options) = name
model_name (alter_model_table name table) = name
model_name (rename_index name new old) = name
model_name (alter_field name f x) = name
model_name (add_index name i) = name
model_name (add_constraint name c) = name

-- The model that an operation of an app changes, as `app_label.model_name`. Names do not distinguish case.
unfoldable pub target : String × Operation → String
target (app, op) = app +++ ("." +++ lower (model_name op))

abbrev set_column : String → Field → List (String × Field) → Option (List (String × Field))
set_column f x [] = none
set_column f x ((g, y) ∷ rest) =
    let later = set_column f x rest in
    if str_eq f g
    then some ((g, x) ∷ rest)
    else elim later [ none ↦ none | some fields ↦ some ((g, y) ∷ fields) ]

abbrev rename : String → String → List Index → Option (List Index)
rename new old [] = none
rename new old (i ∷ rest) =
    let later = rename new old rest in
    if str_eq i.name old
    then some (record i { name = new } ∷ rest)
    else elim later [ none ↦ none | some indexes ↦ some (i ∷ indexes) ]

-- The name of a column without the sign of a descending order.
abbrev plain : String → String
plain String.[] = ""
plain (String.◌∷◌ c s) = if code c == 45 then s else String.◌∷◌ c s

abbrev has_columns : List String → List (String × Field) → Bool
has_columns [] fields = true
has_columns (c ∷ cs) fields = any (λ p. str_eq (plain c) p.0) fields && has_columns cs fields

-- The model after the operation, or none if the operation raises: the model, a column or an index
-- that it names is missing, or a new model is there before.
abbrev pub change : Operation → Option Model → Option Model
change (create_model name fields options) none =
    some (record { fields = fields; options = options })
change (create_model name fields options) (some m) = none
change _ none = none
change (alter_model_table name table) (some m) =
    some (record m { options = record (m.options) { db_table = table } })
change (rename_index name new old) (some m) = elim (rename new old m.options.indexes) [
  | none ↦ none
  | some is ↦ some (record m { options = record (m.options) { indexes = is } })
]
change (alter_field name f x) (some m) = elim (set_column f x m.fields) [
  | none ↦ none
  | some fs ↦ some (record m { fields = fs })
]
change (add_index name i) (some m) =
    if has_columns i.fields m.fields
    then some
        (record m { options = record (m.options) { indexes = m.options.indexes ++ (i ∷ []) } })
    else none
change (add_constraint name c) (some m) =
    if has_columns c.fields m.fields
    then some (record m {
      options = record (m.options) { constraints = m.options.constraints ++ (c ∷ []) };
    })
    else none

-- The models that the columns of a new or altered model refer to.
abbrev pub field_references : List (String × Field) → List String
field_references [] = []
field_references ((name, f) ∷ rest) = refers f.kind ++ field_references rest

abbrev pub references : Operation → List String
references (create_model name fields options) = field_references fields
references (alter_field name f x) = refers x.kind
references _ = []

-- An operation refers to a model that is not there, and is not the one that it changes.
abbrev pub dangling : (String → Bool) → String × Operation → Bool
dangling there step = any (λ r. not (str_eq r (target step) || there r)) (references step.1)

abbrev pub is_some : Option Model → Bool
is_some none = false
is_some (some m) = true

-- The state of a project, with its models by name. `apply` is none if the operation raises: a
-- reference to a model that is missing is a `ValueError` when the state is rendered.
pub record Migrator {ℓ} (S : Type ℓ) : Type ℓ where
  pub apply : String × Operation → S → Option S
  pub model : S → String → Option Model
  pub apply_raises :
      (step : String × Operation) (s : S)
      → (change step.1 (model s (target step)) ≡ none)
        ⊎ (dangling (λ n. is_some (model s n)) step ≡ true)
      → apply step s ≡ none
  pub apply_changes :
      (step : String × Operation) (s : S) (m : Model)
      → change step.1 (model s (target step)) ≡ some m
      → dangling (λ n. is_some (model s n)) step ≡ false
      → (s' : S) × (apply step s ≡ some s')
        × ((n : String) → model s' n ≡ (if str_eq n (target step) then some m else model s n))

abbrev operations_of : String → List Operation → List (String × Operation)
operations_of app [] = []
operations_of app (op ∷ ops) = (app, op) ∷ operations_of app ops

-- The operations of a plan, in order.
abbrev pub steps : List Migration → List (String × Operation)
steps [] = []
steps (m ∷ rest) = operations_of m.app m.operations ++ steps rest

-- `migrate`: none if an operation raises.
module _ {ℓ} {S : Type ℓ} (mg : Migrator S) where
  unfoldable pub run : List (String × Operation) → S → Option S
  run [] s = some s
  run (op ∷ ops) s = elim (mg.apply op s) [ none ↦ none | some s' ↦ run ops s' ]
