-- ===== src/Schema/Keys.antt =====
-- What the tables of the migrated models keep unique and which rows their columns name, against the
-- tests with which the services' insertions refuse a row.
use doorito.Base.{
  ℕ, ◌≡◌, ◌↔◌, Bool, true, false, ◌&&◌, ◌||◌, Option, none, some, String, List, [], ◌∷◌, ◌++◌, map,
  any, str_eq, if◌then◌else◌, not,
}
use doorito.Base.Table.{has}
use doorito.World.{World, Action, Result, ok, err, integrity_error}
use doorito.Portal.Sessions.{session_pk}
use doorito.Portal.Create.{file_pk, batch_pk}
use doorito.Accounts.Models.{user_pk}
use doorito.Schema.Cells.{Cell, key, same_cell}
use doorito.Schema.Fields.{Kind, Field, UniqueConstraint, Model, one_to_one, foreign_key}
use doorito.Schema.Migrator.{Migrator}

abbrev is_one_to_one : Kind → Bool
is_one_to_one (one_to_one to on_delete related_name) = true
is_one_to_one _ = false

abbrev field_keys : List (String × Field) → List (List String)
field_keys [] = []
field_keys ((name, f) ∷ rest) =
    if f.primary_key || f.unique || is_one_to_one f.kind
    then (name ∷ []) ∷ field_keys rest
    else field_keys rest

-- The model of whose rows a column names one.
abbrev row_target : Kind → List String
row_target (foreign_key to on_delete related_name) = to ∷ []
row_target (one_to_one to on_delete related_name) = to ∷ []
row_target _ = []

-- The sets of columns that Django makes the database keep unique: primary keys, unique columns,
-- one-to-one columns and the constraints.
abbrev pub unique_keys : Option Model → List (List String)
unique_keys none = []
unique_keys (some m) =
    field_keys m.fields ++ map (λ (c : UniqueConstraint). c.fields) m.options.constraints

abbrev agree : {A : Type 0} → (A → String → Cell) → A → A → List String → Bool
agree cell new row [] = true
agree cell new row (c ∷ cs) = same_cell (cell new c) (cell row c) && agree cell new row cs

-- The new row agrees with a row of the table on all columns of one of the sets.
abbrev pub violates : {A : Type 0} → List (List String) → (A → String → Cell) → A → A → Bool
violates keys cell new row = any (agree cell new row) keys

-- The columns that name a row of another model, with the model.
abbrev field_targets : List (String × Field) → List (String × String)
field_targets [] = []
field_targets ((name, f) ∷ rest) = map (λ to. (name, to)) (row_target f.kind) ++ field_targets rest

abbrev pub foreign_keys : Option Model → List (String × String)
foreign_keys none = []
foreign_keys (some m) = field_targets m.fields

-- The table of a model has a row with this key.
abbrev pub table_has : World → String → ℕ → Bool
table_has w to k =
    if str_eq to "portal.uploadfile"
    then has file_pk k w.db.files
    else if str_eq to "portal.uploadsession"
    then has session_pk k w.db.sessions
    else if str_eq to "portal.uploadbatch"
    then has batch_pk k w.db.batches
    else if str_eq to "accounts.user"
    then has user_pk k w.db.users
    else false

abbrev pub names_row : World → String → Cell → Bool
names_row w to (key k) = table_has w to k
names_row w to _ = false

-- A column of the row that names a row of another model names none.
abbrev pub orphaned : {A : Type 0} → World → List (String × String) → (A → String → Cell) → A → Bool
orphaned w keys cell row = any (λ p. not (names_row w p.1 (cell row p.0))) keys

-- An insertion raises an IntegrityError exactly if a column names a row of another model that is
-- missing, or a row of the table agrees with the new one on columns that the model keeps unique.
abbrev pub Enforces :
    {A : Type 0} → (A → Action A) → (World → List A) → (A → String → Cell) → Option Model → Type 0
Enforces {A} insert rows cell m =
    (row : A) (w : World)
    → ((insert row w).0 ≡ err integrity_error) ↔ (
        (orphaned w (foreign_keys m) cell row || any (violates (unique_keys m) cell row) (rows w))
        ≡ true)

abbrev guarded : {A : Type 0} → Bool → A → World → World → Result A × World
guarded b a w w' = if b then (err integrity_error, w) else (ok a, w')
