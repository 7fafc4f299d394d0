-- ===== src/Base/Table.antt =====
-- A database table as the list of its rows, each with a number for its primary key.
use mathlib.Core.Path.{◌≡◌, refl}
use mathlib.Core.Logic.{inl, inr}
use Prim.Native.Nat.{ℕ, ◌+◌}
use mathlib.Core.Bool.{Bool, true, false, ◌||◌}
use mathlib.Core.Option.{Option, none, some}
use mathlib.Core.List.{List, [], ◌∷◌}
use native.Mathlib.Omega.{arith}
use doorito.Base.Tests.{◌==◌, ==→eq, ==_refl, Bool-cases, if◌then◌else◌}
use doorito.Base.Lists.{All, count_if}

module _ {ℓ} {A : Type ℓ} (pk : A → ℕ) where
  -- The row with this primary key.
  abbrev pub find : ℕ → List A → Option A
  find k [] = none
  find k (x ∷ xs) = if k == pk x then some x else find k xs

  abbrev pub has : ℕ → List A → Bool
  has k [] = false
  has k (x ∷ xs) = (k == pk x) || has k xs

  -- UPDATE … WHERE pk = k
  abbrev pub modify : ℕ → (A → A) → List A → List A
  modify k f [] = []
  modify k f (x ∷ xs) = (if k == pk x then f x else x) ∷ modify k f xs

  -- No two rows share a primary key.
  abbrev pub Keyed : List A → Type 0
  Keyed [] = Unit
  Keyed (x ∷ xs) = (has (pk x) xs ≡ false) × Keyed xs

  pub find-modify_ne :
      (j k : ℕ) (f : A → A) (xs : List A)
      → ((x : A) → pk (f x) ≡ pk x)
      → (j == k) ≡ false
      → find j (modify k f xs) ≡ find j xs
  find-modify_ne j k f [] same h = refl
  find-modify_ne j k f (x ∷ xs) same h = ground (arith, find-modify_ne j k f xs same h, same x)

  pub find-modify_self :
      (k : ℕ) (f : A → A) {x : A} (xs : List A)
      → ((x : A) → pk (f x) ≡ pk x)
      → find k xs ≡ some x
      → find k (modify k f xs) ≡ some (f x)
  find-modify_self k f [] same h = cc
  find-modify_self k f {x} (y ∷ xs) same h =
      ground (arith, find-modify_self k f {x = x} xs same, same y)

  pub has-modify :
      (j k : ℕ) (f : A → A) (xs : List A)
      → ((x : A) → pk (f x) ≡ pk x)
      → has j (modify k f xs) ≡ has j xs
  has-modify j k f [] same = refl
  has-modify j k f (x ∷ xs) same = ground (arith, has-modify j k f xs same, same x)

  pub Keyed-modify :
      (k : ℕ) (f : A → A) (xs : List A)
      → ((x : A) → pk (f x) ≡ pk x)
      → Keyed xs
      → Keyed (modify k f xs)
  Keyed-modify k f [] same d = tt
  Keyed-modify k f (x ∷ xs) same d = ground (
    arith,
    has-modify (pk x) k f xs same,
    has-modify (pk (f x)) k f xs same,
    same x,
    Keyed-modify k f xs same d.1,
  )

  pub modify_absent : (k : ℕ) (f : A → A) (xs : List A) → has k xs ≡ false → modify k f xs ≡ xs
  modify_absent k f [] h = refl
  modify_absent k f (x ∷ xs) h = ground (arith, modify_absent k f xs)

  -- A change of one row moves a count by what that row counted before and after.
  pub count_if-modify :
      (p : A → Bool) (k : ℕ) (f : A → A) {x : A} (xs : List A)
      → Keyed xs
      → find k xs ≡ some x
      → count_if p (modify k f xs) + (if p x then 1 else 0)
        ≡ count_if p xs + (if p (f x) then 1 else 0)
  count_if-modify p k f [] d h = cc
  count_if-modify p k f {x} (y ∷ xs) d h = elim (Bool-cases (k == pk y)) [
    | inl e ↦ ground (arith, modify_absent k f xs, ==→eq k (pk y) e)
    | inr e ↦ ground (arith, count_if-modify p k f {x = x} xs d.1)
  ]

  -- The sum of a measure over the rows, and how a change of one row moves it.
  abbrev pub sum_by : (A → ℕ) → List A → ℕ
  sum_by m [] = 0
  sum_by m (x ∷ xs) = m x + sum_by m xs

  pub sum_by-modify :
      (m : A → ℕ) (k : ℕ) (f : A → A) {x : A} (xs : List A)
      → Keyed xs
      → find k xs ≡ some x
      → sum_by m (modify k f xs) + m x ≡ sum_by m xs + m (f x)
  sum_by-modify m k f [] d h = cc
  sum_by-modify m k f {x} (y ∷ xs) d h = elim (Bool-cases (k == pk y)) [
    | inl e ↦ ground (arith, modify_absent k f xs, ==→eq k (pk y) e)
    | inr e ↦ ground (arith, sum_by-modify m k f {x = x} xs d.1)
  ]

  pub find-has : (k : ℕ) {x : A} (xs : List A) → find k xs ≡ some x → has k xs ≡ true
  find-has k [] h = cc
  find-has k {x} (y ∷ xs) h = ground (arith, find-has k {x = x} xs)

  pub find-key : (k : ℕ) {x : A} (xs : List A) → find k xs ≡ some x → pk x ≡ k
  find-key k [] h = cc
  find-key k {x} (y ∷ xs) h = ground (arith, find-key k {x = x} xs)

  find_weaken :
      (y : A) (xs ys : List A)
      → has (pk y) ys ≡ false
      → All (λ x. find (pk x) xs ≡ some x) ys
      → All (λ x. find (pk x) (y ∷ xs) ≡ some x) ys
  find_weaken y xs [] h a = tt
  find_weaken y xs (z ∷ ys) h a = (ground (arith, a.0), find_weaken y xs ys (ground arith) a.1)

  -- In a keyed table every row is the one found under its key.
  pub find_own : (xs : List A) → Keyed xs → All (λ x. find (pk x) xs ≡ some x) xs
  find_own [] d = tt
  find_own (x ∷ xs) d = (ground (arith, ==_refl (pk x)), find_weaken x xs xs d.0 (find_own xs d.1))

  -- A property of every row is kept if the one row that changes keeps it.
  pub All-modify {κ} :
      (P : A → Type κ) (k : ℕ) (f : A → A) {y : A} (xs : List A)
      → Keyed xs
      → find k xs ≡ some y
      → P (f y)
      → All P xs
      → All P (modify k f xs)
  All-modify P k f [] d e p h = tt
  All-modify P k f {y} (x ∷ xs) d e p h = elim (Bool-cases (k == pk x)) [
    | inl eq ↦
        let absent : has k xs ≡ false = rw (==→eq k (pk x) eq) d.0 in
        let same : x ≡ y = ground arith in rw (eq, modify_absent k f xs absent, same) (p, h.1)
    | inr ne ↦ rw ne (h.0, All-modify P k f {y = y} xs d.1 (ground arith) p h.1)
  ]

  pub All-find {κ} :
      (P : A → Type κ) (k : ℕ) {x : A} (xs : List A) → All P xs → find k xs ≡ some x → P x
  All-find P k [] a h = cc
  All-find P k {x} (y ∷ xs) a h = elim (Bool-cases (k == pk y)) [
    | inl e ↦ let same : y ≡ x = ground arith in rw (← same) a.0
    | inr e ↦ All-find P k {x = x} xs a.1 (ground arith)
  ]
