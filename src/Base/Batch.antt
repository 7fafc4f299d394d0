-- ===== src/Base/Batch.antt =====
-- Deletion in batches: the rows that meet a condition, in the order of their primary keys, the
-- first `n` of them; and what the deletion of those leaves.
use Prim.Native.Nat.{ℕ, ◌+◌, min}
use mathlib.Core.Path.{◌≡◌, refl, sym, ◌∙◌, subst}
use mathlib.Core.Logic.{inl, inr}
use mathlib.Core.Bool.{Bool, true, false, not, ◌||◌}
use mathlib.Core.Option.{some}
use mathlib.Core.List.{List, [], ◌∷◌, map}
use native.Mathlib.Omega.{arith}
use doorito.Base.Tests.{◌==◌, leb, Bool-cases, ==→eq}
use doorito.Base.Lists.{
  length, take, filter, count_if, elem, All, length-take, length-filter, count_if_none,
}
use doorito.Base.Table.{find, has, Keyed, find_own}
use doorito.Base.Sorting.{
  sort_by, length-sort_by, All-take, All-sort_by, All-filter, All-weaken, Keyed-take, Keyed-sort_by,
  Keyed-filter,
}

module _ {ℓ} {A : Type ℓ} (pk : A → ℕ) where
  -- `order_by("pk")`
  abbrev pub pk_order : A → A → Bool
  pk_order a b = leb (pk a) (pk b)

  abbrev pub first_rows : (A → Bool) → ℕ → List A → List A
  first_rows p n xs = take n (sort_by pk_order (filter p xs))

  -- `list(qs.order_by("pk").values_list("pk", flat=True)[:n])`
  unfoldable pub first_pks : (A → Bool) → ℕ → List A → List ℕ
  first_pks p n xs = map pk (first_rows p n xs)

  -- `pk__in=pks`
  abbrev pub among : List ℕ → A → Bool
  among pks x = elem (pk x) pks

  abbrev Row : (A → Bool) → List A → A → Type ℓ
  Row p xs x = (find pk (pk x) xs ≡ some x) × (p x ≡ true)

  first_rows-Row :
      (p : A → Bool) (n : ℕ) (xs : List A) → Keyed pk xs → All (Row p xs) (first_rows p n xs)
  first_rows-Row p n xs d = All-take (Row p xs) n (sort_by pk_order (filter p xs)) (
      All-sort_by (Row p xs) pk_order (filter p xs)
        (All-filter (λ x. find pk (pk x) xs ≡ some x) p xs (find_own pk xs d)))

  first_rows-Keyed :
      (p : A → Bool) (n : ℕ) (xs : List A) → Keyed pk xs → Keyed pk (first_rows p n xs)
  first_rows-Keyed p n xs d =
      Keyed-take pk n (sort_by pk_order (filter p xs))
        (Keyed-sort_by pk pk_order (filter p xs) (Keyed-filter pk p xs d))

  length-first_rows :
      (p : A → Bool) (n : ℕ) (xs : List A) → length (first_rows p n xs) ≡ min n (count_if p xs)
  length-first_rows p n xs = omega (
    arith,
    length-take n (sort_by pk_order (filter p xs)),
    length-sort_by pk_order (filter p xs),
    length-filter p xs,
  )

  elem-map-has : (k : ℕ) (ys : List A) → elem k (map pk ys) ≡ has pk k ys
  elem-map-has k [] = refl
  elem-map-has k (y ∷ ys) = rw (elem-map-has k ys)

  count_absent : (k : ℕ) (xs : List A) → has pk k xs ≡ false → count_if (λ x. pk x == k) xs ≡ 0
  count_absent k [] h = refl
  count_absent k (x ∷ xs) h = ground (arith, count_absent k xs)

  -- A key stands in one row.
  count_key :
      (k : ℕ) {y : A} (xs : List A)
      → Keyed pk xs
      → find pk k xs ≡ some y
      → count_if (λ x. pk x == k) xs ≡ 1
  count_key k [] d h = cc
  count_key k {y} (x ∷ xs) d h = elim (Bool-cases (k == pk x)) [
    | inl e ↦ ground (arith, count_absent k xs, ==→eq k (pk x) e)
    | inr e ↦ ground (arith, count_key k {y = y} xs d.1)
  ]

  count_split :
      (k : ℕ) (ys xs : List A)
      → has pk k ys ≡ false
      → count_if (λ x. (pk x == k) || has pk (pk x) ys) xs
        ≡ count_if (λ x. pk x == k) xs + count_if (λ x. has pk (pk x) ys) xs
  count_split k ys [] h = refl
  count_split k ys (x ∷ xs) h = elim (Bool-cases (pk x == k)) [
    | inl e ↦
        let absent : has pk (pk x) ys ≡ false = rw (==→eq (pk x) k e) h in
        ground (arith, count_split k ys xs h)
    | inr e ↦ ground (arith, count_split k ys xs h)
  ]

  count_rows :
      (p : A → Bool) (ys xs : List A)
      → Keyed pk xs
      → Keyed pk ys
      → All (Row p xs) ys
      → count_if (λ x. has pk (pk x) ys) xs ≡ length ys
  count_rows p [] xs d dy h = count_if_none xs
  count_rows p (y ∷ ys) xs d dy h = omega (
    arith,
    count_split (pk y) ys xs dy.0,
    count_key (pk y) xs d h.0.0,
    count_rows p ys xs d dy.1 h.1,
  )

  count_congr :
      (p q : A → Bool) (xs : List A) → ((x : A) → p x ≡ q x) → count_if p xs ≡ count_if q xs
  count_congr p q [] h = refl
  count_congr p q (x ∷ xs) h = ground (arith, h x, count_congr p q xs h)

  -- The number of rows that go: the whole condition's, up to the batch size.
  pub count_if-first_pks :
      (p : A → Bool) (n : ℕ) (xs : List A)
      → Keyed pk xs
      → count_if (among (first_pks p n xs)) xs ≡ min n (count_if p xs)
  unfolding first_pks
  count_if-first_pks p n xs d =
      let ys = first_rows p n xs in
      count_congr (among (map pk ys)) (λ x. has pk (pk x) ys) xs (λ x. elem-map-has (pk x) ys)
      ∙ count_rows p ys xs d (first_rows-Keyed p n xs d) (first_rows-Row p n xs d)
      ∙ length-first_rows p n xs

  has_row {κ} :
      {P : A → Type κ} (k : ℕ) (ys : List A)
      → All P ys
      → has pk k ys ≡ true
      → (y : A) × (pk y ≡ k) × P y
  has_row k [] h e = absurd (cc)
  has_row k (y ∷ ys) h e = elim (Bool-cases (k == pk y)) [
    | inl eq ↦ (y, ground (arith, ==→eq k (pk y) eq), h.0)
    | inr ne ↦ has_row k ys h.1 (ground arith)
  ]

  -- Only rows that meet the condition go.
  pub among-first_pks :
      (p : A → Bool) (n : ℕ) (xs : List A)
      → Keyed pk xs
      → All (λ x. among (first_pks p n xs) x ≡ true → p x ≡ true) xs
  unfolding first_pks
  among-first_pks p n xs d =
      let ys = first_rows p n xs in
      All-weaken
        (λ x own e.
          let (y, same, row) =
            has_row {P = Row p xs} (pk x) ys (first_rows-Row p n xs d)
              (sym (elem-map-has (pk x) ys) ∙ e) in
          let found : find pk (pk x) xs ≡ some y = subst (λ k. find pk k xs ≡ some y) same row.0 in
          let one : y ≡ x = cc in subst (λ z. p z ≡ true) one row.1)
        xs (find_own pk xs d)

module _ {ℓ} {A : Type ℓ} (p q : A → Bool) where
  -- What a deletion of rows that all meet the condition leaves of them.
  pub count_if-filter-not :
      (xs : List A)
      → All (λ x. q x ≡ true → p x ≡ true) xs
      → count_if p (filter (λ x. not (q x)) xs) + count_if q xs ≡ count_if p xs
  count_if-filter-not [] h = refl
  count_if-filter-not (x ∷ xs) h = elim (Bool-cases (q x)) [
    | inl e ↦ ground (arith, h.0 e, count_if-filter-not xs h.1)
    | inr e ↦ ground (arith, count_if-filter-not xs h.1)
  ]

  pub filter-filter-not :
      (xs : List A)
      → All (λ x. q x ≡ true → p x ≡ true) xs
      → filter (λ x. not (p x)) (filter (λ x. not (q x)) xs) ≡ filter (λ x. not (p x)) xs
  filter-filter-not [] h = refl
  filter-filter-not (x ∷ xs) h = elim (Bool-cases (q x)) [
    | inl e ↦ ground (arith, h.0 e, filter-filter-not xs h.1)
    | inr e ↦ ground (arith, filter-filter-not xs h.1)
  ]
