-- ===== src/Outbox/Worker/Steady.antt =====
-- What no tick of the worker changes: the keys of the table, the clock, and a database that does
-- not fail.
use ma_secure.Base.{
  String, Option, none, some, ◌≡◌, ◌≢◌, ◌⊎◌, inl, inr, refl, ◌∙◌, List, [], ◌∷◌, map, arith,
  Bool-cases,
}
use ma_secure.Base.Keyed.{update}
use ma_secure.Base.Int.{pos, leb_ℤ}
use ma_secure.Base.Effect.{Result, ok, err, pure, continue}
use ma_secure.Outbox.Backoff.{signed, next_attempt}
use ma_secure.Outbox.Worker.{
  Row, State, Dispatcher, row_key, max_attempts, claimed_rows, start, start_all, statement,
  claim_pending, mark_delivered, schedule_retry, mark_dead_letter, find_dispatcher, finish_one,
  process_with, process_one, process_all, after_claim, process_batch,
}
use ma_secure.Outbox.Worker.Laws.{map-update}

start_all-keys : (cs rs : List Row) → map row_key (start_all cs rs) ≡ map row_key rs
unfolding start_all
start_all-keys [] rs = refl
start_all-keys (c ∷ cs) rs =
    start_all-keys cs (update row_key c.id start rs) ∙ map-update c.id start rs (λ r. refl)

module _ {S : Type 0} where
  pub record Steady (s u : State S) : Type 0 where
    pub clock : u.now ≡ s.now
    pub calm : s.faults ≡ [] → u.faults ≡ []
    pub keys : map row_key u.rows ≡ map row_key s.rows

  Steady-refl : (s : State S) → Steady s s
  Steady-refl s = record { clock = refl; calm = λ h. h; keys = refl }

  pub Steady-trans : (s t u : State S) → Steady s t → Steady t u → Steady s u
  Steady-trans s t u p q = record {
    clock = q.clock ∙ p.clock;
    calm = λ h. q.calm (p.calm h);
    keys = q.keys ∙ p.keys;
  }

  -- A statement fails, and then the rows stay, or it does what it says.
  pub statement_cases :
      (f : List Row → List Row) (s : State S)
      → (((statement f s).0 ≡ err "database") × (s.faults ≢ []) × ((statement f s).1.rows ≡ s.rows))
        ⊎ (((statement f s).0 ≡ ok tt) × ((statement f s).1.rows ≡ f s.rows))
  unfolding statement
  statement_cases f s = ground arith

  statement-Steady :
      (f : List Row → List Row) (s : State S)
      → map row_key (f s.rows) ≡ map row_key s.rows
      → Steady s (statement f s).1
  unfolding statement
  statement-Steady f s k = record {
    clock = ground arith;
    calm = λ h. ground arith;
    keys = ground arith;
  }

  update-Steady :
      (id : String) (f : Row → Row) (s : State S)
      → ((r : Row) → row_key (f r) ≡ row_key r)
      → Steady s (statement (update row_key id f) s).1
  update-Steady id f s k = statement-Steady (update row_key id f) s (map-update id f s.rows k)

  pub claim-Steady : (cs : List Row) (s : State S) → Steady s (statement (start_all cs) s).1
  claim-Steady cs s = statement-Steady (start_all cs) s (start_all-keys cs s.rows)

  retry-Steady :
      (row : Row) (message : String) (s : State S) → Steady s (schedule_retry row message s).1
  unfolding schedule_retry
  retry-Steady row message s = update-Steady row.id _ s λ r. refl

  module _ (ds : List (Dispatcher S)) where
    finish-Steady :
        (row : Row) (a : Result String String) (s : State S) → Steady s (finish_one ds row a s).1
    unfolding finish_one mark_delivered mark_dead_letter
    finish-Steady row (ok ref) s = update-Steady row.id _ s λ r. refl
    finish-Steady row (err message) s =
        elim (Bool-cases (leb_ℤ (pos max_attempts) (signed 16 (next_attempt row.attempts)))) [
          | inl e ↦ rw e (update-Steady row.id _ s λ r. refl)
          | inr e ↦ rw e (retry-Steady row message s)
        ]

    pub process_with-Steady :
        (d : Option (Dispatcher S)) (row : Row) (s : State S) → Steady s (process_with ds d row s).1
    unfolding process_with
    process_with-Steady none row s = retry-Steady row _ s
    process_with-Steady (some d) row s =
        let told =
          finish-Steady row (d.dispatch row s.world).0
            (record s { world = (d.dispatch row s.world).1 }) in
        record { clock = told.clock; calm = told.calm; keys = told.keys }

    process_all-Steady : (cs : List Row) (s : State S) → Steady s (process_all ds cs s)
    unfolding process_all process_one
    process_all-Steady [] s = Steady-refl s
    process_all-Steady (c ∷ cs) s =
        Steady-trans s (process_one ds c s).1 _
          (process_with-Steady (find_dispatcher ds c.target_service) c s)
          (process_all-Steady cs (process_one ds c s).1)

    after_claim-Steady :
        (a : Result String (Unit {0})) (cs : List Row) (s : State S)
        → Steady s (after_claim ds (continue (λ _. pure cs) a s).0 (continue (λ _. pure cs) a s).1)
    unfolding after_claim
    after_claim-Steady (ok _) cs s = process_all-Steady cs s
    after_claim-Steady (err e) cs s = Steady-refl s

    pub process_batch-Steady : (s : State S) → Steady s (process_batch ds s)
    unfolding process_batch claim_pending
    process_batch-Steady s =
        let cs = claimed_rows s.now s.rows in
        let claim = statement (start_all cs) s in
        Steady-trans s claim.1 _ (claim-Steady cs s) (after_claim-Steady claim.0 cs claim.1)
