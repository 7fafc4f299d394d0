-- ===== src/Schema/Agreement.antt =====
-- The migrations of the project build the models that its classes declare.
use doorito.Base.{
  ◌≡◌, refl, ap, ◌∙◌, ◌⊎◌, inl, inr, true, false, if◌then◌else◌, Option, none, some, String, List,
  [], ◌∷◌, Bool-cases,
}
use doorito.Schema.Fields.{Model, column}
use doorito.Schema.Migrator.{Operation, Migrator, target, run, steps}
use doorito.Schema.Plan.{history, plan, own, referred, in_django, Start}
use doorito.Schema.Runs.{Reordered, Reordered-history, unmoved, history-run}
use doorito.Schema.Declared.{declared, models}
use doorito.Schema.Same.{SameModel, history_absent}
use doorito.Schema.Built.{migrated, settled, SameModel-left, Built, every-Built}

module _ (auto_name : String → List String → String)
    (named_by_user : auto_name "portal_upload_file" ("uploaded_by" ∷ "-created_at" ∷ [])
      ≡ "portal_uplo_uploade_0016ce_idx")
    (named_by_status : auto_name "portal_upload_file" ("status" ∷ [])
      ≡ "portal_uplo_status_e50e20_idx") where
  -- What the histories of the models end in.
  abbrev left {ℓ} : {S : Type ℓ} → Migrator S → S → String → Option Model
  left mg s n = if own n then migrated n else mg.model s n

  every-history {ℓ} :
      {S : Type ℓ} (mg : Migrator S) (start : S)
      → Start mg start
      → (n : String) → history n (steps plan) (mg.model start n) ≡ some (left mg start n)
  unfolding Built
  every-history mg start begin n = elim (Bool-cases (own n)) [
    | inl ours ↦
        rw (ours, begin.bare n ours) (every-Built auto_name named_by_user named_by_status n).0
    | inr foreign ↦ rw foreign (history_absent n (steps plan) (mg.model start n) foreign)
  ]

  -- The order of the operations is of no account, as long as no reference dangles.
  run_of {ℓ} :
      {S : Type ℓ} (mg : Migrator S) (start : S) (ops : List (String × Operation))
      → Start mg start
      → Reordered (steps plan) ops
      → referred in_django ops ≡ true
      → (s : S) × (run mg ops start ≡ some s) × ((n : String) → mg.model s n ≡ left mg start n)
  run_of mg start ops begin order refers =
      history-run mg in_django ops start (left mg start) refers begin.django λ n.
        Reordered-history n (steps plan) ops (mg.model start n) order
        ∙ every-history mg start begin n

  -- A name of no operation is that of no class.
  undeclared :
      (n : String)
      → own n ≡ false
      → (n ≡ "accounts.user") ⊎ SameModel (migrated n) (declared auto_name n)
      → (n ≡ "accounts.user") ⊎ (declared auto_name n ≡ none)
  unfolding migrated
  undeclared n foreign (inl user) = inl user
  undeclared n foreign (inr same) =
      let at : migrated n ≡ none = ap settled (history_absent n (steps plan) none foreign) in
      inr (SameModel-left (migrated n) (declared auto_name n) at same)

  -- The operations of the migrations of the three apps, in any order that keeps those on each model
  -- in theirs and in which each refers only to models of Django's app `auth` and to models that an
  -- operation before it makes, run without an exception on a project that has the models of `auth` and
  -- none of the three apps. They build exactly the models that the classes of common/models.py and
  -- portal/models.py declare: the same options, indexes and constraints, and the same columns. The
  -- user model is left out, whose columns come from Django; every other model stays as it was.
  -- `auto_name` names an index that has no name; that the two indexes of the upload files get the names
  -- that the migration writes is assumed.
  pub plan-Declares {ℓ} :
      {S : Type ℓ} (mg : Migrator S) (start : S) (ops : List (String × Operation))
      → Start mg start
      → Reordered (steps plan) ops
      → referred in_django ops ≡ true
      → (s : S) × (run mg ops start ≡ some s)
        × ((n : String)
            → (n ≡ "accounts.user")
              ⊎ (SameModel (mg.model s n) (declared auto_name n)
                  ⊎ ((declared auto_name n ≡ none) × (mg.model s n ≡ mg.model start n))))
  unfolding Built
  plan-Declares mg start ops begin order refers =
      let (s, ran, models) = run_of mg start ops begin order refers in
      (
        s,
        ran,
        λ n. elim (Bool-cases (own n)) [
          | inl ours ↦
              let at : mg.model s n ≡ migrated n = models n ∙ rw ours refl in
              elim (every-Built auto_name named_by_user named_by_status n).1 [
                | inl user ↦ inl user
                | inr same ↦ inr (inl (rw at same))
              ]
          | inr foreign ↦
              let at : mg.model s n ≡ mg.model start n = models n ∙ rw foreign refl in
              elim (undeclared n foreign
                (every-Built auto_name named_by_user named_by_status n).1) [
                  | inl user ↦ inl user
                  | inr undeclared ↦ inr (inr (undeclared, at))
                ]
        ],
      )

-- Names for the two indexes that have none.
abbrev pub index_name : String → List String → String
index_name table (column ∷ []) = "portal_uplo_status_e50e20_idx"
index_name table columns = "portal_uplo_uploade_0016ce_idx"

plan-referred : referred in_django (steps plan) ≡ true
unfolding target
plan-referred = refl

-- The migrations in their order run, and build the models of the three apps.
pub plan-run {ℓ} :
    {S : Type ℓ} (mg : Migrator S) (start : S)
    → Start mg start
    → (s : S) × (run mg (steps plan) start ≡ some s)
      × ((n : String) → own n ≡ true → mg.model s n ≡ migrated n)
plan-run mg start begin =
    let (s, ran, models) =
      run_of index_name refl refl mg start (steps plan) begin (unmoved (steps plan))
        plan-referred in
    (s, ran, λ n ours. models n ∙ rw ours refl)
