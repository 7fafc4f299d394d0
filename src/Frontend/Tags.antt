-- ===== src/Frontend/Tags.antt =====
-- frontend/templatetags/frontend_tags.py: the filters of the templates.
use doorito.Base.{Option, none, some, String, List, [], ◌∷◌, str_eq, if◌then◌else◌}
use doorito.World.{Result, ok, err, unexpected}

-- The filter `split`, given what `str.split` answers: a value that is no text (none) gives [].
unfoldable pub split :
    (String → String → Result (List String)) → Option String → String → Result (List String)
split str_split none sep = ok []
split str_split (some value) sep = str_split value sep

-- What a template holds: a dict, or another object with its attributes.
pub data Held (V : Type 0) : Type 0 where
  dictionary : List (String × V) → Held V
  instance_of : (String → Option V) → Held V

module _ {V : Type 0} (empty : V) where
  abbrev pub get : List (String × V) → String → V
  get [] key = empty
  get ((k, v) ∷ items) key = if str_eq k key then v else get items key

  abbrev pub or_empty : Option V → V
  or_empty none = empty
  or_empty (some v) = v

  -- The filter `get_item`; `empty` stands for "".
  unfoldable pub get_item : Held V → String → V
  get_item (dictionary items) key = get items key
  get_item (instance_of attributes) key = empty

  -- The filter `get_attr`.
  unfoldable pub get_attr : Held V → String → V
  get_attr (dictionary items) name = get items name
  get_attr (instance_of attributes) name = or_empty (attributes name)

  -- The filter `get_field`: a form gives a field, or raises KeyError.
  unfoldable pub get_field : (String → Option V) → String → V
  get_field form name = or_empty (form name)

-- What `json.dumps(value, indent=2, default=str)` does.
pub data Dumped : Type 0 where
  json_text : String → Dumped
  type_error : Dumped
  value_refused : String → Dumped  -- ValueError
  other_raise : String → Dumped

-- The filter `json_pretty`, given that and `str(value)`.
unfoldable pub json_pretty : Dumped → String → Result String
json_pretty (json_text s) as_text = ok s
json_pretty type_error as_text = ok as_text
json_pretty (value_refused m) as_text = ok as_text
json_pretty (other_raise m) as_text = err (unexpected m)
