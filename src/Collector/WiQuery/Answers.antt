-- ===== src/Collector/WiQuery/Answers.antt =====
-- The answer of a call with its retries.
use nfm_dashboard.Prelude.{ℕ, zero, suc, ◌+◌, ◌≤◌, some, ◌≡◌, ◌↔◌, ◌⊎◌, inl, inr, refl, arith}
use nfm_dashboard.Collector.NfmQuery.{Answer, ok, throttled, error}
use nfm_dashboard.Collector.WiQuery.{wi_retry_from, wi_with_retry}

-- From attempt `i` on, a call is throttled until it is answered, at attempt 4 at the latest.
pub data Answered {A : Type 0} (answers : ℕ → Answer A) (a : A) : ℕ → Type 0 where
  answered : (i : ℕ) → i ≤ 4 → answers i ≡ ok a → Answered answers a i
  retried : (i : ℕ) → answers i ≡ throttled → Answered answers a (i + 1) → Answered answers a i

Answered-le : {A : Type 0} {answers : ℕ → Answer A} {a : A} {i : ℕ} → Answered answers a i → i ≤ 4
Answered-le (answered i h e) = h
Answered-le (retried i e d) = omega (arith, Answered-le d)

Answer-cases :
    {A : Type 0} (x : Answer A) → ((a : A) × (x ≡ ok a)) ⊎ ((x ≡ throttled) ⊎ (x ≡ error))
Answer-cases (ok a) = inl (a, refl)
Answer-cases throttled = inr (inl refl)
Answer-cases error = inr (inr refl)

wi_retry_from-Answered :
    {A : Type 0} (left i : ℕ) (answers : ℕ → Answer A) (a : A)
    → i + left ≡ 4
    → wi_retry_from left i answers ≡ some a
    → Answered answers a i
unfolding wi_retry_from
wi_retry_from-Answered zero i answers a h e = elim (Answer-cases (answers i)) [
  | inl (b, p) ↦
      let q = rw (p, wi_retry_from) at e in
      let same : answers i ≡ ok a = cc in answered i (omega arith) same
  | inr (inl p) ↦ let q = rw (p, wi_retry_from) at e in cc
  | inr (inr p) ↦ let q = rw (p, wi_retry_from) at e in cc
]
wi_retry_from-Answered (suc left) i answers a h e = elim (Answer-cases (answers i)) [
  | inl (b, p) ↦
      let q = rw (p, wi_retry_from) at e in
      let same : answers i ≡ ok a = cc in answered i (omega arith) same
  | inr (inl p) ↦
      let q = rw (p, wi_retry_from) at e in
      retried i p (wi_retry_from-Answered left (i + 1) answers a (omega arith) q)
  | inr (inr p) ↦ let q = rw (p, wi_retry_from) at e in cc
]

wi_retry_from_of :
    {A : Type 0} (left i : ℕ) (answers : ℕ → Answer A) (a : A)
    → i + left ≡ 4
    → Answered answers a i
    → wi_retry_from left i answers ≡ some a
unfolding wi_retry_from
wi_retry_from_of zero i answers a h (answered j k e) = rw (e, wi_retry_from) refl
wi_retry_from_of zero i answers a h (retried j e d) = absurd (omega (arith, Answered-le d))
wi_retry_from_of (suc left) i answers a h (answered j k e) = rw (e, wi_retry_from) refl
wi_retry_from_of (suc left) i answers a h (retried j e d) =
    rw (e, wi_retry_from) (wi_retry_from_of left (i + 1) answers a (omega arith) d)

-- The answer of a call with its retries.
abbrev pub Returns : {A : Type 0} → (ℕ → Answer A) → A → Type 0
Returns answers a = Answered answers a 0

pub wi_with_retry-Returns :
    {A : Type 0} (answers : ℕ → Answer A) (a : A)
    → (wi_with_retry answers ≡ some a) ↔ Returns answers a
wi_with_retry-Returns answers a =
    (wi_retry_from-Answered 4 0 answers a refl, wi_retry_from_of 4 0 answers a refl)
