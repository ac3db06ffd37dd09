-- ===== src/Resilient/Attempts.antt =====
-- How a retrying backend settles a request.
use looplet.Prelude.{
  Bool-cases, List, [], ap, arith, false, inl, inr, refl, suc, true, zero, ℕ, ◌++◌, ◌+◌, ◌<◌, ◌∙◌,
  ◌∷◌, ◌≡◌, ◌⊎◌,
}
use looplet.Resilient.{
  BackendAnswer, BackendError, Reply, ResilientBackend, RetryOn, abandoned, error, exhausted,
  owned_attempt, raised, retries_on, returned, value,
}

-- a failed answer that is worth another try
abbrev pub IsRetried : {V : Type 0} → RetryOn → BackendAnswer V → Type 0
IsRetried retry_on (value v) = ⊥
IsRetried retry_on (error e) = (abandoned retry_on e ≡ false) × (retries_on retry_on e ≡ true)

abbrev pub error_in : {V : Type 0} → BackendAnswer V → List BackendError
error_in (value v) = []
error_in (error e) = e ∷ []

none_left : 0 < 0 → ⊥
none_left h = omega arith

BackendAnswer-cases :
    {V : Type 0} (a : BackendAnswer V)
    → ((v : V) × (a ≡ value v)) ⊎ ((e : BackendError) × (a ≡ error e))
BackendAnswer-cases (value v) = inl (v, refl)
BackendAnswer-cases (error e) = inr (e, refl)

module _ {V : Type 0} (answers : ℕ → BackendAnswer V) (b : ResilientBackend V ℕ) where
  -- what the decisive answer, with `more` attempts left after it, makes of the request
  abbrev pub Settles : ℕ → List BackendError → BackendAnswer V → Reply V → Type 0
  Settles more errors (value v) r = r ≡ returned v
  Settles more errors (error e) r =
      ((abandoned b.retry_on e ≡ true) × (r ≡ exhausted (errors ++ e ∷ [])))
      ⊎ ((abandoned b.retry_on e ≡ false) × (retries_on b.retry_on e ≡ false) × (r ≡ raised e))
      ⊎ ((retries_on b.retry_on e ≡ true) × (more ≡ 0) × (r ≡ exhausted (errors ++ e ∷ [])))

  -- some answer is the first that is not retried, or the last that may be asked for
  abbrev pub Settled : ℕ → ℕ → List BackendError → Reply V × ℕ → Type 0
  Settled zero n errors (r, last) = ⊥
  Settled (suc left) n errors (r, last) =
      (Settles left errors (answers n) r × (last ≡ suc n))
      ⊎ (IsRetried b.retry_on (answers n)
          × Settled left (suc n) (errors ++ error_in (answers n)) (r, last))

  module _ (calls : (w : ℕ) → b.call w ≡ (answers w, suc w)) (sleeps : (i w : ℕ) → b.sleep i w ≡ w)
      (attempt n : ℕ) (errors : List BackendError) where
    after_call : (b.call n).1 ≡ suc n
    after_call = ap (λ p. p.1) (calls n)

    value_returns :
        (left : ℕ) (v : V)
        → answers n ≡ value v
        → owned_attempt b (suc left) attempt errors n ≡ (returned v, suc n)
    unfolding owned_attempt
    value_returns left v a =
        let first : (b.call n).0 ≡ value v = ap (λ p. p.0) (calls n) ∙ a in
        rw (owned_attempt, first) (ap (λ w. (returned v, w)) after_call)

    module _ (e : BackendError) (a : answers n ≡ error e) where
      first_error : (b.call n).0 ≡ error e
      first_error = ap (λ p. p.0) (calls n) ∙ a

      abandoned_ends :
          (left : ℕ)
          → abandoned b.retry_on e ≡ true
          → owned_attempt b (suc left) attempt errors n ≡ (exhausted (errors ++ e ∷ []), suc n)
      unfolding owned_attempt
      abandoned_ends left gone =
          rw (owned_attempt, first_error, gone)
            (ap (λ w. (exhausted (errors ++ e ∷ []), w)) after_call)

      final_raises :
          (left : ℕ)
          → abandoned b.retry_on e ≡ false
          → retries_on b.retry_on e ≡ false
          → owned_attempt b (suc left) attempt errors n ≡ (raised e, suc n)
      unfolding owned_attempt
      final_raises left live final =
          rw (owned_attempt, first_error, live, final) (ap (λ w. (raised e, w)) after_call)

      last_try :
          abandoned b.retry_on e ≡ false
          → retries_on b.retry_on e ≡ true
          → owned_attempt b 1 attempt errors n ≡ (exhausted (errors ++ e ∷ []), suc n)
      unfolding owned_attempt
      last_try live again =
          rw (owned_attempt, first_error, live, again)
            (ap (λ w. (exhausted (errors ++ e ∷ []), w)) after_call)

      try_again :
          (left : ℕ)
          → abandoned b.retry_on e ≡ false
          → retries_on b.retry_on e ≡ true
          → owned_attempt b (suc (suc left)) attempt errors n
            ≡ owned_attempt b (suc left) (attempt + 1) (errors ++ e ∷ []) (suc n)
      unfolding owned_attempt
      try_again left live again =
          rw (owned_attempt, first_error, live, again)
            (ap (λ w. owned_attempt b (suc left) (attempt + 1) (errors ++ e ∷ []) w)
              (sleeps attempt (b.call n).1 ∙ after_call))

  after_one :
      (calls : (w : ℕ) → b.call w ≡ (answers w, suc w)) (sleeps : (i w : ℕ) → b.sleep i w ≡ w)
      (left attempt n : ℕ) (errors : List BackendError) (e : BackendError)
      → answers n ≡ error e
      → abandoned b.retry_on e ≡ false
      → retries_on b.retry_on e ≡ true
      → (0 < left
          → Settled left
              (suc n)
              (errors ++ e ∷ [])
              (owned_attempt b left (attempt + 1) (errors ++ e ∷ []) (suc n)))
      → Settled (suc left) n errors (owned_attempt b (suc left) attempt errors n)
  after_one calls sleeps zero attempt n errors e a live again rest =
      rw (last_try calls sleeps attempt n errors e a live again, a)
        (inl (inr (inr (again, refl, refl)), refl))
  after_one calls sleeps (suc left) attempt n errors e a live again rest =
      rw (try_again calls sleeps attempt n errors e a left live again, a)
        (inr ((live, again), rest (omega arith)))

  -- Against a backend that gives its answers one after the other, a request asks for at most as many answers as
  -- it has attempts left, and for one at least. Every answer before the last one asked for is an error that is retried; the last one
  -- settles the request: its value is returned, an error that is not retried goes up, and an abandoned
  -- worker or a last error raises `RetryExhausted` with the errors so
  -- far and this one. There is at least one attempt, and a sleep leaves the answers as they are.
  pub owned_attempt-Settled :
      (calls : (w : ℕ) → b.call w ≡ (answers w, suc w)) (sleeps : (i w : ℕ) → b.sleep i w ≡ w)
      (left attempt n : ℕ) (errors : List BackendError)
      → 0 < left
      → Settled left n errors (owned_attempt b left attempt errors n)
  owned_attempt-Settled calls sleeps zero attempt n errors h = elim (none_left h) [ ]
  owned_attempt-Settled calls sleeps (suc left) attempt n errors h =
      elim (BackendAnswer-cases (answers n)) [
        | inl (v, a) ↦
            rw (value_returns calls sleeps attempt n errors left v a, a) (inl (refl, refl))
        | inr (e, a) ↦ elim (Bool-cases (abandoned b.retry_on e)) [
          | inl gone ↦
              rw (abandoned_ends calls sleeps attempt n errors e a left gone, a)
                (inl (inl (gone, refl), refl))
          | inr live ↦ elim (Bool-cases (retries_on b.retry_on e)) [
            | inr final ↦
                rw (final_raises calls sleeps attempt n errors e a left live final, a)
                  (inl (inr (inl (live, final, refl)), refl))
            | inl again ↦ after_one calls sleeps left attempt n errors e a live again (λ positive.
                owned_attempt-Settled calls sleeps left (attempt + 1) (suc n) (errors ++ e ∷ [])
                  positive)
          ]
        ]
      ]
