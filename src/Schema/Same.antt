-- ===== src/Schema/Same.antt =====
-- When two models are the same, and names that no operation and no class has.
use doorito.Base.{
  ◌≡◌, refl, sym, ◌∙◌, inl, inr, false, Option, none, some, String, List, [], ◌∷◌, map, any, str_eq,
  eq_iff, Bool-cases, Option-cases, arith,
}
use doorito.Schema.Fields.{Field, Model, column}
use doorito.Schema.Migrator.{Operation, target}
use doorito.Schema.Plan.{history}
use doorito.Schema.Declared.{model_named}

-- Two lists of columns that agree on every name; the order of columns is of no account.
abbrev pub SameColumns : List (String × Field) → List (String × Field) → Type 0
SameColumns fs gs = (f : String) → column f fs ≡ column f gs

-- Two models with the same options and the same columns, or no model on either side.
abbrev pub SameModel : Option Model → Option Model → Type 0
SameModel none none = Unit
SameModel (some a) (some b) = (a.options ≡ b.options) × SameColumns a.fields b.fields
SameModel _ _ = ⊥

unfoldable pub Found : List (String × Field) → List (String × Field) → Type 0
Found gs fs = map (λ p. column p.0 gs) fs ≡ map (λ p. some p.1) fs

column-Found :
    (f : String) {x : Field} (fs gs : List (String × Field))
    → Found gs fs
    → column f fs ≡ some x
    → column f gs ≡ some x
unfolding Found
column-Found f [] gs h e = cc e
column-Found f {x} ((g, y) ∷ fs) gs h e = elim (Bool-cases (str_eq f g)) [
  | inl same ↦ ground (arith, (eq_iff f g).0 same, h)
  | inr apart ↦ column-Found f {x = x} fs gs (cc h) (ground arith)
]

pub SameColumns-Found :
    (fs gs : List (String × Field)) → Found gs fs → Found fs gs → SameColumns fs gs
SameColumns-Found fs gs h k f = elim (Option-cases (column f fs)) [
  | inl a ↦ elim (Option-cases (column f gs)) [
    | inl b ↦ a ∙ sym b
    | inr (y, b) ↦ column-Found f {x = y} gs fs k b ∙ sym b
  ]
  | inr (x, a) ↦ a ∙ sym (column-Found f {x = x} fs gs h a)
]

-- A name that no operation has, and one that no model has.
pub history_absent :
    (n : String) (ops : List (String × Operation)) (m : Option Model)
    → any (str_eq n) (map target ops) ≡ false
    → history n ops m ≡ some m
history_absent n [] m h = refl
history_absent n (op ∷ ops) m h = ground (arith, history_absent n ops m)

pub model_absent :
    (n : String) (ms : List (String × Model))
    → any (str_eq n) (map (λ p. p.0) ms) ≡ false
    → model_named n ms ≡ none
model_absent n [] h = refl
model_absent n ((k, m) ∷ ms) h = ground (arith, model_absent n ms)
