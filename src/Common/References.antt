-- ===== src/Common/References.antt =====
-- common/utils.py: `uuid7`, `generate_reference` and `apply_date_range`.
use Prim.Native.String.{◌++◌}
use doorito.Base.{
  ℕ, ◌<◌, ◌≡◌, refl, Option, none, some, String, List, [], ◌∷◌, ◌&&◌, filter, leb, ltb, str_eq,
  arith, if◌then◌else◌,
}
use doorito.Base.Text.{show}

-- `uuid.UUID(bytes=uuid_utils.uuid7().bytes)`: the constructor of the standard library on the bytes
-- that the package draws.
unfoldable pub uuid7 : {Uuid : Type 0} → (List ℕ → Uuid) → List ℕ → Uuid
uuid7 from_bytes drawn = from_bytes drawn

-- `.upper()` of a hexadecimal digit.
abbrev upper_digit : String → String
upper_digit c =
    if str_eq c "a"
    then "A"
    else if str_eq c "b"
    then "B"
    else if str_eq c "c"
    then "C"
    else if str_eq c "d"
    then "D"
    else if str_eq c "e"
    then "E"
    else if str_eq c "f"
    then "F"
    else c

-- `.upper()` of a text of hexadecimal digits.
unfoldable pub upper_hex : String → String
upper_hex String.[] = ""
upper_hex (String.◌∷◌ c s) = upper_digit (String.◌∷◌ c "") ++ upper_hex s

-- Two decimal digits.
abbrev two_digits : ℕ → String
two_digits n = if ltb n 10 then "0" ++ show n else show n

-- A date of the clock, in the years of four digits.
pub record Date : Type 0 where
  pub year : ℕ
  pub month : ℕ
  pub day : ℕ

-- `strftime("%Y%m%d")`
unfoldable pub date_part : Date → String
date_part d = show d.year ++ (two_digits d.month ++ two_digits d.day)

-- `generate_reference` today, with what `secrets.token_hex(3)` drew.
unfoldable pub generate_reference : String → Date → String → String
unfolding date_part upper_hex
generate_reference prefix today token =
    prefix ++ ("-" ++ (date_part today ++ ("-" ++ upper_hex token)))

docstring_example :
    generate_reference "PR" (record { year = 2026; month = 2; day = 17 }) "a1b2c3"
    ≡ "PR-20260217-A1B2C3"
unfolding generate_reference show
docstring_example = refl

module _ {ℓ} {A : Type ℓ} (field : A → ℕ) where
  abbrev from_date : Option ℕ → List A → List A
  from_date none rows = rows
  from_date (some date) rows = filter (λ r. leb date (field r)) rows

  abbrev to_date : Option ℕ → List A → List A
  to_date none rows = rows
  to_date (some date) rows = filter (λ r. leb (field r) date) rows

  -- The rows of a query whose date lies in the range, either end of which may be open.
  unfoldable pub apply_date_range : Option ℕ → Option ℕ → List A → List A
  apply_date_range date_from date_to rows = to_date date_to (from_date date_from rows)

  in_both :
      (low high : ℕ) (rows : List A)
      → filter (λ r. leb (field r) high) (filter (λ r. leb low (field r)) rows)
        ≡ filter (λ r. leb low (field r) && leb (field r) high) rows
  in_both low high [] = refl
  in_both low high (r ∷ rows) = ground (arith, in_both low high rows)

  -- Two dates cut out the rows between them; there is none if they are in the wrong order.
  pub apply_date_range_between :
      (low high : ℕ) (rows : List A)
      → apply_date_range (some low) (some high) rows
        ≡ filter (λ r. leb low (field r) && leb (field r) high) rows
  unfolding apply_date_range
  apply_date_range_between low high rows = in_both low high rows

  pub apply_date_range_empty :
      (low high : ℕ) (rows : List A)
      → high < low
      → apply_date_range (some low) (some high) rows ≡ []
  unfolding apply_date_range
  apply_date_range_empty low high [] h = refl
  apply_date_range_empty low high (r ∷ rows) h =
      ground (arith, h, apply_date_range_empty low high rows h)
