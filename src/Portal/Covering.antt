-- ===== src/Portal/Covering.antt =====
-- Which parts a session has once it has as many as it needs (portal/services/sessions.py): a
-- pigeonhole argument on the part numbers.
use doorito.Base.{
  ℕ, zero, suc, ◌+◌, ◌<◌, ◌≤◌, ◌≡◌, refl, sym, Bool, true, false, List, [], ◌∷◌, arith, All, any,
  count_if, ◌==◌, ◌&&◌, leb, Bool-cases, inl, inr, ◌⊎◌,
}
use doorito.Portal.Models.{UploadPart}
use doorito.Portal.Counters.{part_of, same_number, Numbered}

-- The part `number` of the session.
abbrev pub part_at : ℕ → ℕ → UploadPart → Bool
part_at session number q = (session == q.session) && (number == q.part_number)

module _ (session : ℕ) where
  up_to : ℕ → UploadPart → Bool
  up_to n q = (session == q.session) && leb q.part_number n

  -- A part of the session has a number from 1 to n.
  abbrev pub InRange : ℕ → UploadPart → Type 0
  InRange n q = ((session == q.session) ≡ false) ⊎ ((0 < q.part_number) × (q.part_number ≤ n))

  up_to-suc :
      (n : ℕ) (qs : List UploadPart)
      → count_if (up_to (suc n)) qs ≡ count_if (up_to n) qs + count_if (part_at session (suc n)) qs
  unfolding up_to
  up_to-suc n [] = refl
  up_to-suc n (q ∷ qs) = ground (arith, up_to-suc n qs)

  none_at :
      (k : ℕ) (q : UploadPart) (qs : List UploadPart)
      → part_at session k q ≡ true
      → any (same_number q) qs ≡ false
      → count_if (part_at session k) qs ≡ 0
  none_at k q [] h a = refl
  none_at k q (x ∷ xs) h a = ground (arith, none_at k q xs)

  at_most_one : (k : ℕ) (qs : List UploadPart) → Numbered qs → count_if (part_at session k) qs ≤ 1
  at_most_one k [] d = omega arith
  at_most_one k (q ∷ qs) d = elim (Bool-cases (part_at session k q)) [
    | inl e ↦ rw e (omega (arith, none_at k q qs e d.0))
    | inr e ↦ rw e (omega (arith, at_most_one k qs d.1))
  ]

  up_to_zero : (n : ℕ) (qs : List UploadPart) → All (InRange n) qs → count_if (up_to 0) qs ≡ 0
  unfolding up_to
  up_to_zero n [] a = refl
  up_to_zero n (q ∷ qs) a = ground (arith, up_to_zero n qs a.1, a.0)

  up_to-All :
      (n : ℕ) (qs : List UploadPart)
      → All (InRange n) qs
      → count_if (up_to n) qs ≡ count_if (part_of session) qs
  unfolding up_to
  up_to-All n [] a = refl
  up_to-All n (q ∷ qs) a = ground (arith, up_to-All n qs a.1, a.0)

  up_to_le :
      (m n : ℕ) (qs : List UploadPart)
      → Numbered qs
      → All (InRange m) qs
      → count_if (up_to n) qs ≤ n
  up_to_le m zero qs d a = omega (arith, up_to_zero m qs a)
  up_to_le m (suc n) qs d a =
      omega (arith, up_to-suc n qs, at_most_one (suc n) qs d, up_to_le m n qs d a)

  up_to_missing :
      (m n k : ℕ) (qs : List UploadPart)
      → Numbered qs
      → All (InRange m) qs
      → 0 < k
      → k ≤ n
      → count_if (part_at session k) qs ≡ 0
      → count_if (up_to n) qs < n
  up_to_missing m zero k qs d a pos le h = absurd (omega arith)
  up_to_missing m (suc n) k qs d a pos le h = elim (Bool-cases (k == suc n)) [
    | inl e ↦
        let same : k ≡ suc n = ground arith in
        let gone : count_if (part_at session (suc n)) qs ≡ 0 = rw (sym same) h in
        omega (arith, up_to-suc n qs, gone, up_to_le m n qs d a)
    | inr e ↦
        let below : k ≤ n = ground arith in
        omega
          (arith, up_to-suc n qs, at_most_one (suc n) qs d, up_to_missing m n k qs d a pos below h)
  ]

  none_counted :
      (k : ℕ) (qs : List UploadPart)
      → any (part_at session k) qs ≡ false
      → count_if (part_at session k) qs ≡ 0
  none_counted k [] h = refl
  none_counted k (q ∷ qs) h = ground (arith, none_counted k qs)

  -- n parts with distinct numbers from 1 to n are all the parts from 1 to n.
  pub All-present :
      (n k : ℕ) (qs : List UploadPart)
      → Numbered qs
      → All (InRange n) qs
      → n ≤ count_if (part_of session) qs
      → 0 < k
      → k ≤ n
      → any (part_at session k) qs ≡ true
  All-present n k qs d a enough pos le = elim (Bool-cases (any (part_at session k) qs)) [
    | inl e ↦ e
    | inr e ↦ absurd (
        omega (
          arith,
          up_to_missing n n k qs d a pos le (none_counted k qs e),
          up_to-All n qs a,
          enough,
        ))
  ]
