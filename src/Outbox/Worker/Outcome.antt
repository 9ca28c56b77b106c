-- ===== src/Outbox/Worker/Outcome.antt =====
-- What the worker writes for a row that it claimed, on every branch of `processOne`.
use ma_secure.Base.{
  ℕ, ◌+◌, ◌-◌, ◌<◌, ap, ◌∙◌, ◌^◌, ◌<>◌, String, Option, none, some, true, false, ◌≡◌, ◌≢◌, ◌⊎◌, inl,
  inr, refl, List, [], arith, Bool-cases,
}
use ma_secure.Base.Int.{pos, leb_ℤ}
use ma_secure.Base.Keyed.{update}
use ma_secure.Base.Effect.{Result, ok, err}
use ma_secure.Outbox.Backoff.{backoff_duration, next_attempt, signed}
use ma_secure.Outbox.Worker.{
  Row, State, Dispatcher, row_key, max_attempts, plus, delivered, failed, dead_letter,
  mark_delivered, schedule_retry, mark_dead_letter, statement, find_dispatcher, finish_one,
  process_with, process_one,
}

next_attempt_lem : (n : ℕ) → n < 2 ^ 15 - 1 → next_attempt n ≡ n + 1
next_attempt_lem n h = omega arith

last_attempt :
    (n : ℕ)
    → n < 2 ^ 15 - 1
    → leb_ℤ (pos max_attempts) (signed 16 (next_attempt n)) ≡ true
    → max_attempts < n + 2
last_attempt n h e = ground arith

early_attempt :
    (n : ℕ)
    → n < 2 ^ 15 - 1
    → leb_ℤ (pos max_attempts) (signed 16 (next_attempt n)) ≡ false
    → n + 1 < max_attempts
early_attempt n h e = ground arith

module _ {S : Type 0} where
  abbrev pub retried : Row → String → State S → List Row
  retried row message s =
      update row_key row.id
        (λ r. record r {
          status = failed;
          attempts = row.attempts + 1;
          next_retry_at = plus s.now (backoff_duration (row.attempts + 1));
          error_detail = some message;
        })
        s.rows

  -- The rows after `processOne`, by the dispatcher found for the row and what it answers: without
  -- one, or after an error before the tenth attempt, a retry is written with one attempt more;
  -- after an error at the tenth, the row is a dead letter; after an answer, it is delivered. If the
  -- statement fails, which takes a failure of the database, the rows are as before.
  pub data Processed (row : Row) (s : State S) : Option (Dispatcher S) → List Row → Type 0 where
    database_failed : {d : Option (Dispatcher S)} → s.faults ≢ [] → Processed row s d s.rows
    no_dispatcher :
        Processed row s none (retried row ("no dispatcher for: " <> row.target_service) s)
    sent :
        (d : Dispatcher S) (ref : String)
        → (d.dispatch row s.world).0 ≡ ok ref
        → Processed row s (some d) (
            update row_key row.id
              (λ r. record r { status = delivered; error_detail = none })
              s.rows)
    retry :
        (d : Dispatcher S) (message : String)
        → (d.dispatch row s.world).0 ≡ err message
        → row.attempts + 1 < max_attempts
        → Processed row s (some d) (retried row message s)
    dead :
        (d : Dispatcher S) (message : String)
        → (d.dispatch row s.world).0 ≡ err message
        → max_attempts < row.attempts + 2
        → Processed row s (some d) (
            update row_key row.id
              (λ r. record r { status = dead_letter; error_detail = some message })
              s.rows)

  statement_outcome :
      (f : List Row → List Row) (s : State S)
      → ((s.faults ≢ []) × ((statement f s).1.rows ≡ s.rows)) ⊎ ((statement f s).1.rows ≡ f s.rows)
  unfolding statement
  statement_outcome f s = ground arith

  written :
      (row : Row) (s u : State S) (d : Option (Dispatcher S)) (f : List Row → List Row)
      → u.rows ≡ s.rows
      → u.faults ≡ s.faults
      → Processed row s d (f s.rows)
      → Processed row s d (statement f u).1.rows
  written row s u d f e e' h = elim (statement_outcome f u) [
    | inl (fails, same) ↦ rw (same ∙ e) (database_failed (λ k. fails (e' ∙ k)))
    | inr done ↦ rw (done ∙ ap f e) h
  ]

  retry_written :
      (row : Row) (message : String) (s : State S) (w : S) (d : Option (Dispatcher S))
      → row.attempts < 2 ^ 15 - 1
      → Processed row s d (retried row message s)
      → Processed row s d (schedule_retry row message (record s { world = w })).1.rows
  unfolding schedule_retry
  retry_written row message s w d small h = rw (next_attempt_lem row.attempts small) (
      written row s (record s { world = w }) d (λ rs. retried row message (record s { rows = rs }))
        refl refl h)

  finish_lem :
      (ds : List (Dispatcher S)) (row : Row) (d : Dispatcher S) (s : State S)
      → row.attempts < 2 ^ 15 - 1
      → (a : Result String String) → (d.dispatch row s.world).0 ≡ a
      → Processed row s
          (some d)
          (finish_one ds row a (record s { world = (d.dispatch row s.world).1 })).1.rows
  unfolding finish_one mark_delivered mark_dead_letter
  finish_lem ds row d s small (ok ref) e = written row s _ (some d) _ refl refl (sent d ref e)
  finish_lem ds row d s small (err message) e =
      elim (Bool-cases (leb_ℤ (pos max_attempts) (signed 16 (next_attempt row.attempts)))) [
        | inl h ↦ rw h (
            written row s _ (some d) _ refl refl
              (dead d message e (last_attempt row.attempts small h)))
        | inr h ↦ rw h (
            retry_written row message s _ (some d) small
              (retry d message e (early_attempt row.attempts small h)))
      ]

  process_with_lem :
      (ds : List (Dispatcher S)) (row : Row) (s : State S) (d : Option (Dispatcher S))
      → row.attempts < 2 ^ 15 - 1
      → Processed row s d (process_with ds d row s).1.rows
  unfolding process_with
  process_with_lem ds row s none small = retry_written row _ s s.world none small no_dispatcher
  process_with_lem ds row s (some d) small =
      finish_lem ds row d s small (d.dispatch row s.world).0 refl

  -- What `processOne` does, for a row with fewer attempts than an `int16` can count.
  pub process_one_lem :
      (ds : List (Dispatcher S)) (row : Row) (s : State S)
      → row.attempts < 2 ^ 15 - 1
      → Processed row s (find_dispatcher ds row.target_service) (process_one ds row s).1.rows
  unfolding process_one
  process_one_lem ds row s small =
      process_with_lem ds row s (find_dispatcher ds row.target_service) small
