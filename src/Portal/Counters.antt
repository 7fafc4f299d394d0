-- ===== src/Portal/Counters.antt =====
-- What the columns of an upload session (portal/services/sessions.py) count: the parts recorded for
-- it and their bytes.
use doorito.Base.{
  ℕ, ◌+◌, ◌≡◌, refl, ◌∙◌, Bool, true, false, List, [], ◌∷◌, ◌++◌, arith, All, any, count_if, ◌==◌,
  ◌&&◌, ◌||◌, if◌then◌else◌,
}
use doorito.Base.Table.{has, modify, has-modify}
use doorito.Portal.Models.{UploadSession, UploadPart, SessionStatus}
use doorito.Portal.Sessions.{session_pk}

abbrev pub part_of : ℕ → UploadPart → Bool
part_of session q = session == q.session

abbrev pub bytes_of : ℕ → List UploadPart → ℕ
bytes_of session [] = 0
bytes_of session (q ∷ qs) = (if session == q.session then q.size_bytes else 0) + bytes_of session qs

-- The counters of a session agree with the parts.
abbrev pub Counted : List UploadPart → UploadSession → Type 0
Counted parts s =
    (s.completed_parts ≡ count_if (part_of s.id) parts) × (s.bytes_received ≡ bytes_of s.id parts)

abbrev pub same_number : UploadPart → UploadPart → Bool
same_number p q = (p.session == q.session) && (p.part_number == q.part_number)

-- No two parts of a session share a number.
abbrev pub Numbered : List UploadPart → Type 0
Numbered [] = Unit
Numbered (q ∷ qs) = (any (same_number q) qs ≡ false) × Numbered qs

-- The change that `record_upload_part` makes to the row of the session.
abbrev pub advance : ℕ → UploadSession → UploadSession
advance size_bytes s = record s {
  completed_parts = s.completed_parts + 1;
  bytes_received = s.bytes_received + size_bytes;
  status = SessionStatus.in_progress;
}

pub count-snoc :
    (k : ℕ) (parts : List UploadPart) (q : UploadPart)
    → count_if (part_of k) (parts ++ q ∷ [])
      ≡ count_if (part_of k) parts + (if k == q.session then 1 else 0)
count-snoc k [] q = omega arith
count-snoc k (x ∷ xs) q = ground (arith, count-snoc k xs q)

bytes-snoc :
    (k : ℕ) (parts : List UploadPart) (q : UploadPart)
    → bytes_of k (parts ++ q ∷ []) ≡ bytes_of k parts + (if k == q.session then q.size_bytes else 0)
bytes-snoc k [] q = omega arith
bytes-snoc k (x ∷ xs) q = ground (arith, bytes-snoc k xs q)

-- A new part and the change of its session keep all the counters right.
pub Counted-advance :
    (parts : List UploadPart) (q : UploadPart) (xs : List UploadSession)
    → All (Counted parts) xs
    → All (Counted (parts ++ q ∷ [])) (modify session_pk q.session (advance q.size_bytes) xs)
Counted-advance parts q [] h = tt
Counted-advance parts q (s ∷ xs) h = (
  ground (arith, count-snoc s.id parts q, bytes-snoc s.id parts q, h.0),
  Counted-advance parts q xs h.1,
)

-- A part with a number of its own in its session keeps the numbers distinct.
pub Numbered-snoc :
    (parts : List UploadPart) (q : UploadPart)
    → any (λ x. (q.id == x.id) || (q.session == x.session && q.part_number == x.part_number)) parts
      ≡ false
    → Numbered parts
    → Numbered (parts ++ q ∷ [])
Numbered-snoc [] q h d = (refl, tt)
Numbered-snoc (x ∷ xs) q h d =
    (any-snoc x xs q (ground arith) d.0, Numbered-snoc xs q (ground arith) d.1)
  where
    any-snoc :
        (x : UploadPart) (xs : List UploadPart) (q : UploadPart)
        → same_number x q ≡ false
        → any (same_number x) xs ≡ false
        → any (same_number x) (xs ++ q ∷ []) ≡ false
    any-snoc x [] q h a = ground arith
    any-snoc x (y ∷ ys) q h a = ground (arith, any-snoc x ys q)

-- Without a part, both counters are zero.
pub count_of_none :
    (k : ℕ) (sessions : List UploadSession) (parts : List UploadPart)
    → has session_pk k sessions ≡ false
    → All (λ (q : UploadPart). has session_pk q.session sessions ≡ true) parts
    → (count_if (part_of k) parts ≡ 0) × (bytes_of k parts ≡ 0)
count_of_none k sessions [] h a = (refl, refl)
count_of_none k sessions (q ∷ qs) h a =
    let rest = count_of_none k sessions qs h a.1 in
    let apart : (k == q.session) ≡ false = apart_of k q.session sessions h a.0 in
    ground (arith, rest)
  where
    apart_of :
        (j k : ℕ) (sessions : List UploadSession)
        → has session_pk j sessions ≡ false
        → has session_pk k sessions ≡ true
        → (j == k) ≡ false
    apart_of j k [] h a = cc
    apart_of j k (s ∷ ss) h a = ground (arith, apart_of j k ss)

module _ {A : Type 0} (P : A → Type 0) where
  pub All-snoc : (x : A) (xs : List A) → P x → All P xs → All P (xs ++ x ∷ [])
  All-snoc x [] p h = (p, tt)
  All-snoc x (y ∷ ys) p h = (h.0, All-snoc x ys p h.1)

pub has-snoc :
    (k : ℕ) (s : UploadSession) (xs : List UploadSession)
    → has session_pk k xs ≡ true
    → has session_pk k (xs ++ s ∷ []) ≡ true
has-snoc k s [] h = cc
has-snoc k s (x ∷ xs) h = ground (arith, has-snoc k s xs)

pub owned-snoc :
    (s : UploadSession) (xs : List UploadSession) (parts : List UploadPart)
    → All (λ (q : UploadPart). has session_pk q.session xs ≡ true) parts
    → All (λ (q : UploadPart). has session_pk q.session (xs ++ s ∷ []) ≡ true) parts
owned-snoc s xs [] h = tt
owned-snoc s xs (q ∷ qs) h = (has-snoc q.session s xs h.0, owned-snoc s xs qs h.1)

pub owned-modify :
    (k : ℕ) (f : UploadSession → UploadSession) (xs : List UploadSession) (parts : List UploadPart)
    → ((s : UploadSession) → (f s).id ≡ s.id)
    → All (λ (q : UploadPart). has session_pk q.session xs ≡ true) parts
    → All (λ (q : UploadPart). has session_pk q.session (modify session_pk k f xs) ≡ true) parts
owned-modify k f xs [] same h = tt
owned-modify k f xs (q ∷ qs) same h =
    (has-modify session_pk q.session k f xs same ∙ h.0, owned-modify k f xs qs same h.1)

-- A primary key that no session has, if none has it or the file.
pub unused :
    (row : UploadSession) (xs : List UploadSession)
    → any (λ (s : UploadSession). (row.id == s.id) || (row.file == s.file)) xs ≡ false
    → has session_pk row.id xs ≡ false
unused row [] h = refl
unused row (s ∷ ss) h = ground (arith, unused row ss)

-- A change that keeps the key and the counters.
pub Counted-keep :
    (parts : List UploadPart) (k saved : ℕ) (xs : List UploadSession)
    → All (Counted parts) xs
    → All (Counted parts) (
        modify session_pk k
          (λ row. record row { status = SessionStatus.complete; updated_at = saved })
          xs)
Counted-keep parts k saved [] h = tt
Counted-keep parts k saved (s ∷ ss) h = (ground (arith, h.0), Counted-keep parts k saved ss h.1)
