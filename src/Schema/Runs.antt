-- ===== src/Schema/Runs.antt =====
-- How a run of migrations acts on each model: by the operations that name it, in their order.
use doorito.Base.{
  ◌≡◌, refl, sym, ap, ◌∙◌, inl, inr, Bool, true, false, not, any, ◌||◌, Option, none, some, String,
  List, [], ◌∷◌, filter, str_eq, eq_iff, Bool-cases, Option-cases, str_eq_refl, if◌then◌else◌,
  arith,
}
use doorito.Schema.Fields.{Model}
use doorito.Schema.Migrator.{
  Operation, Migrator, target, change, run, dangling, references, is_some,
}
use doorito.Schema.Plan.{history, referred}

-- The operation changes the model of this name.
abbrev pub names : String → String × Operation → Bool
names n op = str_eq n (target op)

-- The same operations in another order, where those on one model keep theirs.
pub data Reordered : List (String × Operation) → List (String × Operation) → Type 0 where
  unmoved : (ops : List (String × Operation)) → Reordered ops ops
  swapped :
      (a b : String × Operation) (ops : List (String × Operation))
      → str_eq (target a) (target b) ≡ false
      → Reordered (a ∷ b ∷ ops) (b ∷ a ∷ ops)
  kept :
      (a : String × Operation) {ops ops' : List (String × Operation)}
      → Reordered ops ops'
      → Reordered (a ∷ ops) (a ∷ ops')
  chained :
      {ops ops' ops'' : List (String × Operation)}
      → Reordered ops ops'
      → Reordered ops' ops''
      → Reordered ops ops''

filter-swap :
    (n : String) (a b : String × Operation) (ops : List (String × Operation))
    → str_eq (target a) (target b) ≡ false
    → filter (names n) (a ∷ b ∷ ops) ≡ filter (names n) (b ∷ a ∷ ops)
filter-swap n a b ops apart = elim (Bool-cases (names n a)) [
  | inl e ↦ let other : names n b ≡ false = rw ((eq_iff n (target a)).0 e) apart in ground arith
  | inr e ↦ ground arith
]

Reordered-filter :
    (n : String) (ops ops' : List (String × Operation))
    → Reordered ops ops'
    → filter (names n) ops ≡ filter (names n) ops'
Reordered-filter n _ _ (unmoved ops) = refl
Reordered-filter n _ _ (swapped a b ops apart) = filter-swap n a b ops apart
Reordered-filter n _ _ (kept a {ops} {ops'} r) = ground (arith, Reordered-filter n ops ops' r)
Reordered-filter n _ _ (chained {ops} {ops'} {ops''} r r') =
    Reordered-filter n ops ops' r ∙ Reordered-filter n ops' ops'' r'

history-filter :
    (n : String) (ops : List (String × Operation)) (m : Option Model)
    → history n (filter (names n) ops) m ≡ history n ops m
history-filter n [] m = refl
history-filter n (op ∷ ops) m = elim (Bool-cases (names n op)) [
  | inl e ↦ elim (Option-cases (change op.1 m)) [
    | inl raised ↦ ground arith
    | inr (m', changed) ↦ ground (arith, history-filter n ops (some m'))
  ]
  | inr e ↦ ground (arith, history-filter n ops m)
]

pub Reordered-history :
    (n : String) (ops ops' : List (String × Operation)) (m : Option Model)
    → Reordered ops ops'
    → history n ops' m ≡ history n ops m
Reordered-history n ops ops' m r =
    sym (history-filter n ops' m)
    ∙ ap (λ o. history n o m) (sym (Reordered-filter n ops ops' r))
    ∙ history-filter n ops m

-- What refers to models that are there does so also where there are more.
dangling-more :
    (there more : String → Bool) (op : String × Operation)
    → ((n : String) → there n ≡ true → more n ≡ true)
    → dangling there op ≡ false
    → dangling more op ≡ false
dangling-more there more op le h = each (references op.1) h
  where
    each :
        (rs : List String)
        → any (λ r. not (str_eq r (target op) || there r)) rs ≡ false
        → any (λ r. not (str_eq r (target op) || more r)) rs ≡ false
    each [] h = refl
    each (r ∷ rs) h = elim (Bool-cases (there r)) [
      | inl known ↦ ground (arith, each rs, le r known)
      | inr unknown ↦ ground (arith, each rs)
    ]

module _ {ℓ} {S : Type ℓ} (mg : Migrator S) where
  -- A migration that refers to a model that is missing stops the run.
  pub run-dangling :
      (op : String × Operation) (ops : List (String × Operation)) (s : S)
      → dangling (λ n. is_some (mg.model s n)) op ≡ true
      → run mg (op ∷ ops) s ≡ none
  unfolding run
  run-dangling op ops s h = let e = mg.apply_raises op s (inr h) in rw (run, e) refl

  run-applied :
      (op : String × Operation) (ops : List (String × Operation)) (s s' : S)
      → mg.apply op s ≡ some s'
      → run mg (op ∷ ops) s ≡ run mg ops s'
  unfolding run
  run-applied op ops s s' e = rw (run, e) refl

  -- One operation, as the history of a name sees it.
  history-step :
      (n : String) (op : String × Operation) (ops : List (String × Operation)) (s s' : S)
      (m : Model)
      → change op.1 (mg.model s (target op)) ≡ some m
      → mg.model s' n ≡ (if str_eq n (target op) then some m else mg.model s n)
      → history n (op ∷ ops) (mg.model s n) ≡ history n ops (mg.model s' n)
  history-step n op ops s s' m e h = elim (Bool-cases (str_eq n (target op))) [
    | inl same ↦
        let at : n ≡ target op = (eq_iff n (target op)).0 same in
        let e' : change op.1 (mg.model s n) ≡ some m = rw at e in
        let h' : mg.model s' n ≡ some m = h ∙ rw same refl in rw (same, h', e') refl
    | inr apart ↦ let h' : mg.model s' n ≡ mg.model s n = h ∙ rw apart refl in rw (apart, h') refl
  ]

  -- What was there and what the operation made is there after it.
  there-step :
      (there : String → Bool) (op : String × Operation) (s s' : S) (m : Model)
      → ((n : String) → there n ≡ true → is_some (mg.model s n) ≡ true)
      → ((n : String) → mg.model s' n ≡ (if str_eq n (target op) then some m else mg.model s n))
      → (n : String) → (str_eq n (target op) || there n) ≡ true
      → is_some (mg.model s' n) ≡ true
  there-step there op s s' m le models n h = elim (Bool-cases (str_eq n (target op))) [
    | inl same ↦ rw (models n, same) refl
    | inr apart ↦ rw (models n, apart) (le n (ground arith))
  ]

  -- A run that no history forbids, and in which every operation refers to models that are there,
  -- succeeds, with the models that the histories end in.
  pub history-run :
      (there : String → Bool) (ops : List (String × Operation)) (s : S)
      (final : String → Option Model)
      → referred there ops ≡ true
      → ((n : String) → there n ≡ true → is_some (mg.model s n) ≡ true)
      → ((n : String) → history n ops (mg.model s n) ≡ some (final n))
      → (s' : S) × (run mg ops s ≡ some s') × ((n : String) → mg.model s' n ≡ final n)
  unfolding run
  history-run there [] s final r le h = (s, refl, λ n. cc (h n))
  history-run there (op ∷ ops) s final r le h =
      elim (Option-cases (change op.1 (mg.model s (target op)))) [
        | inl raised ↦
            let t = target op in
            let impossible : none ≡ some (final t) = (rw (str_eq_refl t, raised) refl) ∙ h t in
            cc impossible
        | inr (m, changed) ↦
            let met = dangling-more there (λ n. is_some (mg.model s n)) op le (ground arith) in
            let (s', applied, models) = mg.apply_changes op s m changed met in
            let later =
              history-run (λ n. str_eq n (target op) || there n) ops s' final (ground arith)
                (there-step there op s s' m le models)
                (λ n. sym (history-step n op ops s s' m changed (models n)) ∙ h n) in
            (later.0, run-applied op ops s s' applied ∙ later.1, later.2)
      ]
