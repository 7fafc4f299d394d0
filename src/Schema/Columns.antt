-- ===== src/Schema/Columns.antt =====
-- Columns and options that the classes of common/models.py and portal/models.py have in common.
use doorito.Base.{ℕ, true, false, String, List, [], ◌∷◌}
use doorito.Schema.Fields.{
  Field, Options, set_null, uuid7, empty_dict, text_value, number_value, date_time, uuid, text,
  positive_integer, char, json, foreign_key, field,
}

abbrev pub time_stamped_model : List (String × Field)
time_stamped_model =
    ("created_at", record (field (date_time true false)) { verbose_name = "created at" })
    ∷ ("updated_at", record (field (date_time false true)) { verbose_name = "updated at" })
    ∷ []

-- `models.UUIDField(primary_key=True, default=uuid7, editable=False)`
abbrev pub uuid_key : Field
uuid_key = record (field uuid) { primary_key = true; default = uuid7; editable = false }

-- `models.CharField(max_length=20, choices=Status.choices, default=…)`
abbrev pub status_field : List (String × String) → String × String → Field
status_field choices default = record (field (char 20)) {
  choices = choices;
  default = text_value default.0;
}

-- `models.CharField(max_length=255, blank=True, db_index=True)`
abbrev pub blank_indexed : ℕ → Field
blank_indexed n = record (field (char n)) { blank = true; db_index = true }

-- `models.PositiveIntegerField(default=n)`
abbrev pub count_from : ℕ → Field
count_from n = record (field positive_integer) { default = number_value n }

-- A foreign key to the user, who may be deleted.
abbrev pub user_key : String → Field
user_key related_name = record (field (foreign_key "accounts.user" set_null related_name)) {
  null = true;
  blank = true;
}

-- The class `Meta`, but for its indexes and constraints.
abbrev pub meta : String → String → String → List String → Options
meta table name plural ordering = record {
  db_table = table;
  verbose_name = name;
  verbose_name_plural = plural;
  ordering = ordering;
  indexes = [];
  constraints = [];
}

-- The columns of an event after its primary key, for `OutboxEvent` and `PortalEventOutbox` alike.
abbrev pub event_fields : Field → List (String × Field)
event_fields status =
    ("aggregate_type", field (char 100))
    ∷ ("aggregate_id", field (char 100))
    ∷ ("event_type", field (char 100))
    ∷ ("payload", record (field (json true)) { default = empty_dict })
    ∷ ("status", status)
    ∷ ("idempotency_key", field (char 255))
    ∷ ("attempts", count_from 0)
    ∷ ("max_attempts", count_from 5)
    ∷ ("next_attempt_at", record (field (date_time false false)) { null = true })
    ∷ ("delivered_at", record (field (date_time false false)) { null = true; blank = true })
    ∷ ("error_message", record (field text) { blank = true })
    ∷ []

-- `indexes` and `constraints` of an outbox.
abbrev pub event_meta : String → String → Options → Options
event_meta index constraint o = record o {
  indexes =
      (record {
        fields = "next_attempt_at" ∷ [];
        condition = ("status", "pending") ∷ [];
        name = index;
      })
      ∷ [];
  constraints = (record { fields = "event_type" ∷ "idempotency_key" ∷ []; name = constraint }) ∷ [];
}
