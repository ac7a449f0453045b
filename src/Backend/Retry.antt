-- ===== src/Backend/Retry.antt =====
-- client/base.py: the loop of `request`, over the answers that the attempts would get. The waits
-- between attempts are not modelled.
use esim_opensource_mcp.Prelude.{
  ℕ, zero, suc, ◌+◌, ◌-◌, ◌≤◌, ◌<◌, Bool, true, false, ◌||◌, Option, eqb, if◌then◌else◌, ◌≡◌, arith,
  refl, ◌⊎◌, inl, inr, Bool-cases,
}
use esim_opensource_mcp.Errors.{Result, err, plain, backend_timeout, backend_unavailable}
use esim_opensource_mcp.Backend.{Answer, timed_out, unreachable, answered, Payload}
use esim_opensource_mcp.Backend.Classify.{parse}

abbrev pub max_read_attempts : ℕ
max_read_attempts = 3

split : (i j : ℕ) → i ≤ j → (i ≡ j) ⊎ (i + 1 ≤ j)
split i j p = ground arith

module _ {R : Type 0} where
  -- a lost answer, or one with a status in `_RETRYABLE_STATUS`
  unfoldable pub try_again : Answer R → Bool
  try_again timed_out = true
  try_again unreachable = true
  try_again (answered r) = eqb r.status_code 502 || (eqb r.status_code 503 || eqb r.status_code 504)

  unfoldable pub settle : Answer R → Result (Option (Payload R))
  unfolding parse
  settle timed_out = err (plain backend_timeout)
  settle unreachable = err (plain backend_unavailable)
  settle (answered r) = parse r

  -- `left` more attempts are allowed after attempt `i`; the second part is how many were made
  unfoldable pub attempt_from : ℕ → ℕ → (ℕ → Answer R) → Result (Option (Payload R)) × ℕ
  unfolding try_again settle
  attempt_from zero i answers = (settle (answers i), i + 1)
  attempt_from (suc left) i answers =
      let again = attempt_from left (i + 1) answers in
      if try_again (answers i) then again else (settle (answers i), i + 1)

  unfoldable pub request : Bool → (ℕ → Answer R) → Result (Option (Payload R)) × ℕ
  unfolding attempt_from
  request allow_retry answers =
      attempt_from (if allow_retry then max_read_attempts - 1 else 0) 0 answers

  -- Attempt `m` is the last one of those from `i` to `i + left`: its answer is the result, those
  -- before it were of the kind that is tried again, and it is not unless no attempt was left.
  abbrev pub LastOf : ℕ → ℕ → (ℕ → Answer R) → Result (Option (Payload R)) × ℕ → Type 0
  LastOf left i answers (r, n) =
      (m : ℕ) × (n ≡ m + 1)
      × (i ≤ m)
      × (m ≤ i + left)
      × (r ≡ settle (answers m))
      × ((j : ℕ) → i ≤ j → j < m → try_again (answers j) ≡ true)
      × (m < i + left → try_again (answers m) ≡ false)

  attempt_from-LastOf :
      (left i : ℕ) (answers : ℕ → Answer R) → LastOf left i answers (attempt_from left i answers)
  unfolding attempt_from
  attempt_from-LastOf zero i answers = (
    i,
    refl,
    omega arith,
    omega arith,
    refl,
    (λ j p q. absurd (omega arith)),
    λ p. absurd (omega arith),
  )
  attempt_from-LastOf (suc left) i answers = elim (Bool-cases (try_again (answers i))) [
    | inl again ↦
        let (m, n, low, high, r, before, last) = attempt_from-LastOf left (i + 1) answers in
        rw again (
          m,
          n,
          omega arith,
          omega arith,
          r,
          (λ j p q. elim (split i j p) [
            | inl same ↦ rw⁻¹ same again
            | inr later ↦ before j later q
          ]),
          λ p. last (omega arith),
        )
    | inr enough ↦
        rw enough
          (i, refl, omega arith, omega arith, refl, (λ j p q. absurd (omega arith)), λ p. enough)
  ]

  -- A request is made once where it may not be repeated, and three times at most where it may; its
  -- last answer is its result, and it goes on past an answer exactly when that was lost or of the
  -- status 502, 503 or 504 and an attempt is left.
  pub request-LastOf :
      (allow_retry : Bool) (answers : ℕ → Answer R)
      → LastOf (if allow_retry then 2 else 0) 0 answers (request allow_retry answers)
  unfolding request
  request-LastOf true answers = attempt_from-LastOf 2 0 answers
  request-LastOf false answers = attempt_from-LastOf 0 0 answers
