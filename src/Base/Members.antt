-- ===== src/Base/Members.antt =====
-- Members of a list under `filter`, `sort_by` and `take`.
use Prim.Native.Nat.{ℕ, zero, suc, ◌≤◌}
use mathlib.Core.Path.{◌≡◌, refl, sym, ◌∙◌, ap}
use mathlib.Core.Logic.{inl, inr}
use mathlib.Core.Bool.{Bool, true}
use mathlib.Core.List.{List, [], ◌∷◌, map, Memᴰ}
use mathlib.Core.List.Memᴰ
use native.Mathlib.Omega.{arith}
use doorito.Base.Tests.{Bool-cases}
use doorito.Base.Lists.{length, take, filter, All}
use doorito.Base.Sorting.{place, sort_by}

module _ {ℓ} {A : Type ℓ} where
  pub Memᴰ-filter :
      (p : A → Bool) {a : A} (xs : List A) → Memᴰ a xs → p a ≡ true → Memᴰ a (filter p xs)
  Memᴰ-filter p [] m h = absurd (Memᴰ.not-nil m)
  Memᴰ-filter p (x ∷ xs) (Memᴰ.head e) h = rw (ap p (sym e) ∙ h) (Memᴰ.head e)
  Memᴰ-filter p (x ∷ xs) (Memᴰ.tail m) h = elim (Bool-cases (p x)) [
    | inl kept ↦ rw kept (Memᴰ.tail (Memᴰ-filter p xs m h))
    | inr left_out ↦ rw left_out (Memᴰ-filter p xs m h)
  ]

  Memᴰ-place_self : (le : A → A → Bool) (x : A) (ys : List A) → Memᴰ x (place le x ys)
  unfolding place
  Memᴰ-place_self le x [] = Memᴰ.head refl
  Memᴰ-place_self le x (y ∷ ys) = elim (Bool-cases (le x y)) [
    | inl before ↦ rw before (Memᴰ.head refl)
    | inr behind ↦ rw behind (Memᴰ.tail (Memᴰ-place_self le x ys))
  ]

  Memᴰ-place :
      (le : A → A → Bool) (x : A) {a : A} (ys : List A) → Memᴰ a ys → Memᴰ a (place le x ys)
  unfolding place
  Memᴰ-place le x [] m = absurd (Memᴰ.not-nil m)
  Memᴰ-place le x (y ∷ ys) (Memᴰ.head e) = elim (Bool-cases (le x y)) [
    | inl before ↦ rw before (Memᴰ.tail (Memᴰ.head e))
    | inr behind ↦ rw behind (Memᴰ.head e)
  ]
  Memᴰ-place le x (y ∷ ys) (Memᴰ.tail m) = elim (Bool-cases (le x y)) [
    | inl before ↦ rw before (Memᴰ.tail (Memᴰ.tail m))
    | inr behind ↦ rw behind (Memᴰ.tail (Memᴰ-place le x ys m))
  ]

  pub Memᴰ-sort_by : (le : A → A → Bool) {a : A} (xs : List A) → Memᴰ a xs → Memᴰ a (sort_by le xs)
  unfolding sort_by
  Memᴰ-sort_by le [] m = absurd (Memᴰ.not-nil m)
  Memᴰ-sort_by le (x ∷ xs) (Memᴰ.head e) = Memᴰ.cast e (Memᴰ-place_self le x (sort_by le xs))
  Memᴰ-sort_by le (x ∷ xs) (Memᴰ.tail m) = Memᴰ-place le x (sort_by le xs) (Memᴰ-sort_by le xs m)

  pub take_all : (n : ℕ) (xs : List A) → length xs ≤ n → take n xs ≡ xs
  take_all zero [] h = refl
  take_all zero (x ∷ xs) h = absurd (omega (arith, h))
  take_all (suc n) [] h = refl
  take_all (suc n) (x ∷ xs) h = ap (λ (ys : List A). x ∷ ys) (take_all n xs (omega (arith, h)))

  pub All-Memᴰ {κ} : (P : A → Type κ) {a : A} (xs : List A) → All P xs → Memᴰ a xs → P a
  All-Memᴰ P [] h m = absurd (Memᴰ.not-nil m)
  All-Memᴰ P (x ∷ xs) h (Memᴰ.head e) = rw e h.0
  All-Memᴰ P (x ∷ xs) h (Memᴰ.tail m) = All-Memᴰ P xs h.1 m

  -- A change that keeps a property of each element keeps it of all.
  pub All-map {κ} :
      (P : A → Type κ) (f : A → A) (xs : List A)
      → ((x : A) → P x → P (f x))
      → All P xs
      → All P (map f xs)
  All-map P f [] h a = tt
  All-map P f (x ∷ xs) h a = (h x a.0, All-map P f xs h a.1)
