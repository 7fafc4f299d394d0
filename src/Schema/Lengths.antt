-- ===== src/Schema/Lengths.antt =====
-- Whether the texts that the code writes fit the columns that the migrations build. A database that
-- enforces `max_length`, as PostgreSQL does, refuses a row that does not fit.
use Prim.Native.String.{◌++◌, count}
use text.Mathlib.TextLemmas.{length-append}
use doorito.Base.{
  ℕ, ◌≤◌, ◌≡◌, Bool, true, false, ◌&&◌, leb, Option, none, some, String, List, [], ◌∷◌, str_eq,
  arith, inl, inr, Bool-cases,
}
use doorito.Common.Models.{OutboxEvent, EventStatus, Payload}
use doorito.Common.Admin.{reset}
use doorito.Common.Outbox.Settle.{overwrite}
use doorito.Schema.Statuses.{event_choice}
use doorito.Common.Outbox.Emit.{Draw, new_event, key_or_default}
use doorito.Schema.Fields.{Kind, Field, Model, char, url, email, column}
use doorito.Schema.Migrator.{target}
use doorito.Schema.Built.{migrated}
use doorito.Schema.Cells.{Cell, words, event_cell}

-- `max_length`
abbrev pub width : Kind → Option ℕ
width (char n) = some n
width (url n) = some n
width (email n) = some n
width _ = none

abbrev fits_width : Option ℕ → Cell → Bool
fits_width (some n) (words s) = leb (count s) n
fits_width _ _ = true

-- The text in a column is no longer than the column allows.
abbrev fits_columns : (String → Cell) → List (String × Field) → Bool
fits_columns row [] = true
fits_columns row ((c, f) ∷ rest) = fits_width (width f.kind) (row c) && fits_columns row rest

abbrev pub fits : Option Model → (String → Cell) → Bool
fits none row = false
fits (some m) row = fits_columns row m.fields

-- One column alone.
abbrev pub fits_column : Option Model → String → (String → Cell) → Bool
fits_column none c row = false
fits_column (some m) c row = elim (column c m.fields) [
  | none ↦ false
  | some f ↦ fits_width (width f.kind) (row c)
]

-- A key that is given fits its column; the code makes one if none is given.
abbrev pub KeyFits : Option String → Type 0
KeyFits none = Unit
KeyFits (some key) = count key ≤ 255

-- `f"{aggregate_type}:{aggregate_id}"`
made_key-le : (t i : String) → count t ≤ 100 → count i ≤ 100 → count (t ++ (":" ++ i)) ≤ 255
made_key-le t i ht hi = omega (arith, length-append t (":" ++ i), length-append ":" i, ht, hi)

key_or_default-le :
    (key : Option String) (t i : String)
    → count t ≤ 100
    → count i ≤ 100
    → KeyFits key
    → count (key_or_default key t i) ≤ 255
unfolding key_or_default
key_or_default-le none t i ht hi h = made_key-le t i ht hi
key_or_default-le (some key) t i ht hi h = elim (Bool-cases (str_eq key "")) [
  | inl e ↦ rw e (made_key-le t i ht hi)
  | inr e ↦ rw e h
]

-- The texts of an event that never change.
pub record Bounded (e : OutboxEvent) : Type 0 where
  pub type_le : count e.aggregate_type ≤ 100
  pub id_le : count e.aggregate_id ≤ 100
  pub event_le : count e.event_type ≤ 100
  pub key_le : count e.idempotency_key ≤ 255

pub new-Bounded :
    (aggregate_type aggregate_id event_type : String) (payload : Option Payload)
    (key : Option String) (draw : Draw)
    → count aggregate_type ≤ 100
    → count aggregate_id ≤ 100
    → count event_type ≤ 100
    → KeyFits key
    → Bounded (new_event aggregate_type aggregate_id event_type payload key draw)
unfolding new_event
new-Bounded t i e payload key draw ht hi he hk = record {
  type_le = ht;
  id_le = hi;
  event_le = he;
  key_le = key_or_default-le key t i ht hi hk;
}

status-le : (status : EventStatus) → count (event_choice status).0 ≤ 20
status-le EventStatus.pending = omega arith
status-le EventStatus.delivered = omega arith
status-le EventStatus.failed = omega arith

pub Bounded-fits :
    (e : OutboxEvent) → Bounded e → fits (migrated "common.outboxevent") (event_cell e) ≡ true
unfolding migrated target
Bounded-fits e b = ground (arith, b.type_le, b.id_le, b.event_le, b.key_le, status-le e.status)

pub overwrite-Bounded :
    (saved : ℕ) (e row : OutboxEvent) → Bounded row → Bounded (overwrite saved e row)
unfolding overwrite
overwrite-Bounded saved e row b = ground arith

pub reset-Bounded : (now : ℕ) (e : OutboxEvent) → Bounded e → Bounded (reset now e)
reset-Bounded now e b = ground arith
