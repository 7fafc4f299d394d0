-- ===== src/Schema/ByName.antt =====
-- A migrator for the examples, whose state is the function from names to models.
use doorito.Base.{
  ap, sym, ◌∙◌, eq_iff, arith, ◌≡◌, refl, ◌⊎◌, inl, inr, true, false, [], Bool-cases, Option, none,
  some, String, str_eq, if◌then◌else◌,
}
use doorito.Schema.Fields.{Model}
use doorito.Schema.Migrator.{Operation, Migrator, target, change, dangling, is_some}
use doorito.Schema.Plan.{in_django, own, Start}

abbrev pub Named : Type 0
Named = String → Option Model

unfoldable pub step_named : String × Operation → Named → Option Named
step_named step s =
    if dangling (λ n. is_some (s n)) step then none else elim (change step.1 (s (target step))) [
      | none ↦ none
      | some m ↦ some (λ n. if str_eq n (target step) then some m else s n)
    ]

pub step_named_raises :
    (step : String × Operation) (s : Named)
    → (change step.1 (s (target step)) ≡ none) ⊎ (dangling (λ n. is_some (s n)) step ≡ true)
    → step_named step s ≡ none
unfolding step_named
step_named_raises step s (inr dangles) = rw (step_named, dangles) refl
step_named_raises step s (inl raised) = elim (Bool-cases (dangling (λ n. is_some (s n)) step)) [
  | inl dangles ↦ rw (step_named, dangles) refl
  | inr met ↦ rw (step_named, met, raised) refl
]

pub step_named_changes :
    (step : String × Operation) (s : Named) (m : Model)
    → change step.1 (s (target step)) ≡ some m
    → dangling (λ n. is_some (s n)) step ≡ false
    → step_named step s ≡ some (λ n. if str_eq n (target step) then some m else s n)
unfolding step_named
step_named_changes step s m changed met = rw (step_named, met, changed) refl

abbrev pub by_name : Migrator Named
by_name = record {
  apply = step_named;
  model = λ s n. s n;
  apply_raises = step_named_raises;
  apply_changes = λ step s m changed met. (
    λ n. if str_eq n (target step) then some m else s n,
    step_named_changes step s m changed met,
    λ n. refl,
  );
}

abbrev bare_model : Model
bare_model = record {
  fields = [];
  options = record {
    db_table = "";
    verbose_name = "";
    verbose_name_plural = "";
    ordering = [];
    indexes = [];
    constraints = [];
  };
}

-- The models of `auth`, without their columns.
abbrev pub auth_models : Named
auth_models n = if in_django n then some bare_model else none

not_ours : (n k : String) → own n ≡ true → str_eq n k ≡ true → own k ≡ false → ⊥
not_ours n k ours same foreign =
    let at : own k ≡ true = ap own (sym ((eq_iff n k).0 same)) ∙ ours in ground (arith, at, foreign)

pub auth_models-Start : Start by_name auth_models
unfolding target
auth_models-Start = record {
  django = λ n h. rw h refl;
  bare = λ n ours. elim (Bool-cases (in_django n)) [
    | inr foreign ↦ rw foreign refl
    | inl auth ↦ elim (Bool-cases (str_eq n "auth.group")) [
      | inl same ↦ absurd (not_ours n "auth.group" ours same refl)
      | inr apart ↦
          let second : str_eq n "auth.permission" ≡ true = ground (arith, auth, apart) in
          absurd (not_ours n "auth.permission" ours second refl)
    ]
  ];
}
