-- ===== src/Base/Sorting.antt =====
-- Ordered queries: insertion sort by a Boolean comparison, and what sorting, `take` and `filter`
-- keep of a table.
use Prim.Native.Nat.{ℕ, zero, suc, ◌+◌}
use mathlib.Core.Path.{◌≡◌, refl, ◌∙◌}
use mathlib.Core.Bool.{Bool, true, false, ◌||◌}
use mathlib.Core.List.{List, [], ◌∷◌}
use native.Mathlib.Omega.{arith}
use doorito.Base.Tests.{◌==◌, if◌then◌else◌}
use doorito.Base.Lists.{All, count_if, length, take, filter}
use doorito.Base.Table.{has, Keyed}

module _ {ℓ} {A : Type ℓ} where
  -- `le x y`: `x` may stand before `y`. The sort is stable.
  unfoldable pub place : (A → A → Bool) → A → List A → List A
  place le x [] = x ∷ []
  place le x (y ∷ ys) = if le x y then x ∷ y ∷ ys else y ∷ place le x ys

  unfoldable pub sort_by : (A → A → Bool) → List A → List A
  unfolding place
  sort_by le [] = []
  sort_by le (x ∷ xs) = place le x (sort_by le xs)

  pub count_if-place :
      (le : A → A → Bool) (p : A → Bool) (x : A) (ys : List A)
      → count_if p (place le x ys) ≡ (if p x then 1 else 0) + count_if p ys
  unfolding place
  count_if-place le p x [] = refl
  count_if-place le p x (y ∷ ys) = ground (arith, count_if-place le p x ys)

  pub count_if-sort_by :
      (le : A → A → Bool) (p : A → Bool) (xs : List A) → count_if p (sort_by le xs) ≡ count_if p xs
  unfolding sort_by
  count_if-sort_by le p [] = refl
  count_if-sort_by le p (x ∷ xs) =
      ground (arith, count_if-place le p x (sort_by le xs), count_if-sort_by le p xs)

  pub length-place :
      (le : A → A → Bool) (x : A) (ys : List A) → length (place le x ys) ≡ suc (length ys)
  unfolding place
  length-place le x [] = refl
  length-place le x (y ∷ ys) = ground (arith, length-place le x ys)

  pub length-sort_by : (le : A → A → Bool) (xs : List A) → length (sort_by le xs) ≡ length xs
  unfolding sort_by
  length-sort_by le [] = refl
  length-sort_by le (x ∷ xs) =
      ground (arith, length-place le x (sort_by le xs), length-sort_by le xs)

module _ {ℓ κ} {A : Type ℓ} (P : A → Type κ) where
  All-place : (le : A → A → Bool) (x : A) (ys : List A) → P x → All P ys → All P (place le x ys)
  unfolding place
  All-place le x [] h hs = (h, tt)
  All-place le x (y ∷ ys) h hs =
      (elim (le x y) as (λ b. All P (if b then x ∷ y ∷ ys else y ∷ place le x ys)) [
        | true ↦ (h, hs)
        | false ↦ (hs.0, All-place le x ys h hs.1)
      ])

  pub All-sort_by : (le : A → A → Bool) (xs : List A) → All P xs → All P (sort_by le xs)
  unfolding sort_by
  All-sort_by le [] h = tt
  All-sort_by le (x ∷ xs) h = All-place le x (sort_by le xs) h.0 (All-sort_by le xs h.1)

  pub All-take : (n : ℕ) (xs : List A) → All P xs → All P (take n xs)
  All-take zero xs h = tt
  All-take (suc n) [] h = tt
  All-take (suc n) (x ∷ xs) h = (h.0, All-take n xs h.1)

  -- What is kept by a filter has the property and passes the test.
  pub All-filter :
      (p : A → Bool) (xs : List A) → All P xs → All (λ x. P x × (p x ≡ true)) (filter p xs)
  All-filter p [] h = tt
  All-filter p (x ∷ xs) h = keep (p x) refl (All-filter p xs h.1)
    where
      keep :
          (b : Bool)
          → p x ≡ b
          → All (λ x. P x × (p x ≡ true)) (filter p xs)
          → All (λ x. P x × (p x ≡ true)) (if b then x ∷ filter p xs else filter p xs)
      keep true e rest = ((h.0, e), rest)
      keep false e rest = rest

module _ {ℓ κ μ} {A : Type ℓ} {P : A → Type κ} {Q : A → Type μ} where
  pub All-weaken : ((x : A) → P x → Q x) → (xs : List A) → All P xs → All Q xs
  All-weaken f [] h = tt
  All-weaken f (x ∷ xs) h = (f x h.0, All-weaken f xs h.1)

module _ {ℓ} {A : Type ℓ} (pk : A → ℕ) where
  has-place :
      (le : A → A → Bool) (k : ℕ) (x : A) (ys : List A)
      → has pk k (place le x ys) ≡ ((k == pk x) || has pk k ys)
  unfolding place
  has-place le k x [] = refl
  has-place le k x (y ∷ ys) = ground (arith, has-place le k x ys)

  pub has-sort_by :
      (le : A → A → Bool) (k : ℕ) (xs : List A) → has pk k (sort_by le xs) ≡ has pk k xs
  unfolding sort_by
  has-sort_by le k [] = refl
  has-sort_by le k (x ∷ xs) = ground (arith, has-place le k x (sort_by le xs), has-sort_by le k xs)

  Keyed-place :
      (le : A → A → Bool) (x : A) (ys : List A)
      → has pk (pk x) ys ≡ false
      → Keyed pk ys
      → Keyed pk (place le x ys)
  unfolding place
  Keyed-place le x [] h d = (refl, tt)
  Keyed-place le x (y ∷ ys) h d =
      ground (
        arith,
        has-place le (pk y) x ys,
        λ (g : has pk (pk x) ys ≡ false). Keyed-place le x ys g d.1,
      )

  pub Keyed-sort_by : (le : A → A → Bool) (xs : List A) → Keyed pk xs → Keyed pk (sort_by le xs)
  unfolding sort_by
  Keyed-sort_by le [] d = tt
  Keyed-sort_by le (x ∷ xs) d =
      Keyed-place le x (sort_by le xs) (has-sort_by le (pk x) xs ∙ d.0) (Keyed-sort_by le xs d.1)

  has-take-false : (k n : ℕ) (xs : List A) → has pk k xs ≡ false → has pk k (take n xs) ≡ false
  has-take-false k zero xs h = refl
  has-take-false k (suc n) [] h = refl
  has-take-false k (suc n) (x ∷ xs) h = ground (arith, has-take-false k n xs)

  pub Keyed-take : (n : ℕ) (xs : List A) → Keyed pk xs → Keyed pk (take n xs)
  Keyed-take zero xs d = tt
  Keyed-take (suc n) [] d = tt
  Keyed-take (suc n) (x ∷ xs) d = (has-take-false (pk x) n xs d.0, Keyed-take n xs d.1)

  pub has-filter-false :
      (k : ℕ) (p : A → Bool) (xs : List A) → has pk k xs ≡ false → has pk k (filter p xs) ≡ false
  has-filter-false k p [] h = refl
  has-filter-false k p (x ∷ xs) h = ground (arith, has-filter-false k p xs)

  pub Keyed-filter : (p : A → Bool) (xs : List A) → Keyed pk xs → Keyed pk (filter p xs)
  Keyed-filter p [] d = tt
  Keyed-filter p (x ∷ xs) d =
      ground (arith, has-filter-false (pk x) p xs d.0, Keyed-filter p xs d.1)

module _ {ℓ κ} {A : Type ℓ} (P Q : A → Type κ) where
  pub All-and : (xs : List A) → All P xs → All Q xs → All (λ x. P x × Q x) xs
  All-and [] h k = tt
  All-and (x ∷ xs) h k = ((h.0, k.0), All-and xs h.1 k.1)
