-- ===== src/Common/Commands.antt =====
-- common/management/base.py: the base class of the management commands. The clock's readings are
-- arguments, in microseconds.
use doorito.Base.{ℕ, ◌-◌, ltb, Bool, Option, none, some, String, List, [], ◌∷◌, ◌++◌, if◌then◌else◌}

-- `parser.add_argument(flag, action="store_true", …)`: a flag that is false unless given; `dest` is
-- the name of its value.
pub record Flag : Type 0 where
  pub name : String
  pub dest : String
  pub help : String

-- `add_arguments`, by `supports_dry_run` and `supports_json`.
unfoldable pub add_arguments : Bool → Bool → List Flag
add_arguments supports_dry_run supports_json =
    (if supports_dry_run
      then (record {
        name = "--dry-run";
        dest = "dry_run";
        help = "Show what would happen without making changes";
      })
        ∷ []
      else [])
    ++ (if supports_json
        then (record { name = "--json"; dest = "json_output"; help = "Output results as JSON" })
          ∷ []
        else [])

-- A difference of two readings, which is negative if the clock went back.
pub data Elapsed : Type 0 where
  passed back : ℕ → Elapsed

abbrev pub difference : ℕ → ℕ → Elapsed
difference now start = if ltb now start then back (start - now) else passed (now - start)

-- `elapsed`: Python reads the clock a second time for the default of `getattr`, after the first one,
-- whether there is a start or not.
unfoldable pub elapsed : Option ℕ → ℕ → ℕ → Elapsed
elapsed (some start) now second = difference now start
elapsed none now second = difference now second
