-- ===== src/Common/Fields.antt =====
-- common/fields.py: `MoneyField`, by the keyword arguments that it hands to `DecimalField`.
use doorito.Base.{
  ℕ, ◌≡◌, refl, Option, none, some, String, List, [], ◌∷◌, str_eq, arith, if◌then◌else◌,
}

-- The arguments that occur: a number, a decimal number as text, and the validators by their bounds.
pub data Argument : Type 0 where
  number : ℕ → Argument
  decimal : String → Argument
  min_values : List String → Argument

abbrev pub Kwargs : Type 0
Kwargs = List (String × Argument)

abbrev pub given : String → Kwargs → Option Argument
given key [] = none
given key ((k, v) ∷ rest) = if str_eq k key then some v else given key rest

-- `kwargs.setdefault(key, value)`
unfoldable pub setdefault : String → Argument → Kwargs → Kwargs
setdefault key value [] = (key, value) ∷ []
setdefault key value ((k, v) ∷ rest) =
    let others = setdefault key value rest in
    if str_eq k key then (k, v) ∷ rest else (k, v) ∷ others

-- `MoneyField.__init__`, up to the call of `DecimalField.__init__`.
unfoldable pub money_kwargs : Kwargs → Kwargs
unfolding setdefault
money_kwargs kwargs = setdefault "validators" (min_values ("0.00" ∷ [])) (
    setdefault "default" (decimal "0.00")
      (setdefault "decimal_places" (number 2) (setdefault "max_digits" (number 12) kwargs)))

-- `MoneyField.deconstruct`, on what `DecimalField.deconstruct` returns: the path alone is replaced.
unfoldable pub deconstruct :
    {Args : Type 0} → String × String × Args × Kwargs → String × String × Args × Kwargs
deconstruct (name, path, args, kwargs) = (name, "django.db.models.DecimalField", args, kwargs)

given-setdefault :
    (key other : String) (value v : Argument) (kwargs : Kwargs)
    → given key kwargs ≡ some v
    → given key (setdefault other value kwargs) ≡ some v
unfolding setdefault
given-setdefault key other value v [] h = absurd (ground (arith, h))
given-setdefault key other value v ((k, x) ∷ rest) h =
    ground (arith, h, given-setdefault key other value v rest)

-- An argument that is given is never replaced.
pub given-money_kwargs :
    (key : String) (v : Argument) (kwargs : Kwargs)
    → given key kwargs ≡ some v
    → given key (money_kwargs kwargs) ≡ some v
unfolding money_kwargs
given-money_kwargs key v kwargs h =
    given-setdefault key "validators" (min_values ("0.00" ∷ [])) v _ (
      given-setdefault key "default" (decimal "0.00") v _ (
        given-setdefault key "decimal_places" (number 2) v _
          (given-setdefault key "max_digits" (number 12) v kwargs h)))

no_arguments :
    money_kwargs []
    ≡ ("max_digits", number 12)
      ∷ ("decimal_places", number 2)
      ∷ ("default", decimal "0.00")
      ∷ ("validators", min_values ("0.00" ∷ []))
      ∷ []
unfolding money_kwargs
no_arguments = refl
