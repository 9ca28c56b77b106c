-- ===== src/Outbox/Worker/Ticks.antt =====
-- What a tick of the worker makes of one row of the table.
use ma_secure.Base.{
  ℕ, ◌+◌, ◌<◌, ◌^◌, ◌-◌, ◌<>◌, String, Option, none, some, true, false, ◌≡◌, ◌≢◌, ◌⊎◌, inl, inr,
  refl, ◌∙◌, ap, List, [], ◌∷◌, map, IsDistinct, length,
}
use ma_secure.Base.Keyed.{find, key-find}
use ma_secure.Base.Effect.{Result, ok, err, pure, continue}
use ma_secure.Outbox.Backoff.{backoff_duration}
use ma_secure.Outbox.Worker.{
  Row, State, Dispatcher, row_key, max_attempts, batch_size, plus, is_due, due_rows, claimed_rows,
  start, start_all, statement, claim_pending, delivered, failed, dead_letter, find_dispatcher,
  process_one, process_all, after_claim, process_batch,
}
use ma_secure.Outbox.Worker.Laws.{process_with-Spares, process_all-Spares, process_batch-Spares}
use ma_secure.Outbox.Worker.Outcome.{
  Processed, database_failed, no_dispatcher, sent, retry, dead, process_one_lem,
}
use ma_secure.Outbox.Worker.Steady.{
  Steady, Steady-trans, statement_cases, claim-Steady, process_with-Steady,
}
use ma_secure.Outbox.Worker.Claim.{Once, claimed_rows-cases, start_all-Once, update_own}

-- A row for which a retry is written.
abbrev pub put_back : Row → String → ℕ → Row
put_back r message now = record r {
  status = failed;
  attempts = r.attempts + 1;
  next_retry_at = plus now (backoff_duration (r.attempts + 1));
  error_detail = some message;
}

module _ {S : Type 0} where
  module _ (ds : List (Dispatcher S)) where
    -- What a tick that starts in `s` makes of a row `r`: it leaves it, since the row is not due,
    -- the batch is full or the database fails; it leaves the row in `processing`, since the
    -- database fails; or it writes the answer of the row's dispatcher, a retry or a dead letter.
    pub data Ticked (s : State S) (r : Row) : Row → Type 0 where
      left :
          ((is_due s.now r ≡ false) ⊎ (batch_size < length (due_rows s.now s.rows)))
            ⊎ (s.faults ≢ [])
          → Ticked s r r
      stuck : is_due s.now r ≡ true → s.faults ≢ [] → Ticked s r (start r)
      arrives :
          (d : Dispatcher S) (w : S) (ref : String)
          → is_due s.now r ≡ true
          → find_dispatcher ds r.target_service ≡ some d
          → (d.dispatch r w).0 ≡ ok ref
          → Ticked s r (record r { status = delivered; error_detail = none })
      again :
          (message : String)
          → is_due s.now r ≡ true
          → (find_dispatcher ds r.target_service ≡ none) ⊎ (r.attempts + 1 < max_attempts)
          → Ticked s r (put_back r message s.now)
      buried :
          (d : Dispatcher S) (w : S) (message : String)
          → is_due s.now r ≡ true
          → find_dispatcher ds r.target_service ≡ some d
          → (d.dispatch r w).0 ≡ err message
          → max_attempts < r.attempts + 2
          → Ticked s r (record r { status = dead_letter; error_detail = some message })

    module _ (id : String) (r : Row) (own : r.id ≡ id) (small : r.attempts < 2 ^ 15 - 1)
        (s : State S) where
      abbrev After : List Row → Type 0
      After rows = (r' : Row) × (find row_key id rows ≡ some r') × Ticked s r r'

      module _ (due : is_due s.now r ≡ true) where
        processed :
            (u : State S) (o : Option (Dispatcher S)) (rows : List Row)
            → Steady s u
            → find_dispatcher ds r.target_service ≡ o
            → find row_key id u.rows ≡ some (start r)
            → Processed r u o rows
            → After rows
        processed u o _ st e found (database_failed fails) =
            (start r, found, stuck due (λ h. fails (st.calm h)))
        processed u _ _ st e found no_dispatcher = (
          _,
          update_own id r.id _ u.rows (start r) own (λ r. refl) found
              ∙ ap (λ n. some (put_back r ("no dispatcher for: " <> r.target_service) n)) st.clock,
          again _ due (inl e),
        )
        processed u _ _ st e found (sent d ref answered) = (
          _,
          update_own id r.id _ u.rows (start r) own (λ r. refl) found,
          arrives d u.world ref due e answered,
        )
        processed u _ _ st e found (retry d message answered early) = (
          _,
          update_own id r.id _ u.rows (start r) own (λ r. refl) found
              ∙ ap (λ n. some (put_back r message n)) st.clock,
          again message due (inr early),
        )
        processed u _ _ st e found (dead d message answered late) = (
          _,
          update_own id r.id _ u.rows (start r) own (λ r. refl) found,
          buried d u.world message due e answered late,
        )

        one_processed :
            (u : State S)
            → Steady s u
            → find row_key id u.rows ≡ some (start r)
            → After (process_one ds r u).1.rows
        one_processed u st found =
            processed u (find_dispatcher ds r.target_service) (process_one ds r u).1.rows st refl
              found (process_one_lem ds r u small)

        all_processed :
            (cs : List Row) (u : State S)
            → Steady s u
            → Once id r cs
            → find row_key id u.rows ≡ some (start r)
            → After (process_all ds cs u).rows
        unfolding process_all process_one
        all_processed [] u st o found = elim o [ ]
        all_processed (c ∷ cs) u st (inl (e, absent)) found =
            let (r', f, t) = one_processed u st found in
            let rest = process_all-Spares ds id cs (process_one ds c u).1 absent in
            (r', rest.row ∙ ap (λ c. find row_key id (process_one ds c u).1.rows) e ∙ f, t)
        all_processed (c ∷ cs) u st (inr (n, o)) found =
            let d = find_dispatcher ds c.target_service in
            let spared = process_with-Spares ds id d c u n in
            all_processed cs (process_one ds c u).1
              (Steady-trans s u _ st (process_with-Steady ds d c u)) o (spared.row ∙ found)

        batch_processed :
            (a : Result String (Unit {0})) (u : State S) (cs : List Row)
            → Steady s u
            → Once id r cs
            → find row_key id s.rows ≡ some r
            → ((a ≡ err "database") × (s.faults ≢ []) × (u.rows ≡ s.rows))
              ⊎ ((a ≡ ok tt) × (u.rows ≡ start_all cs s.rows))
            → After
                (after_claim ds
                  (continue (λ _. pure cs) a u).0
                  (continue (λ _. pure cs) a u).1).rows
        unfolding after_claim
        batch_processed (ok _) u cs st o found (inl (e, fails, same)) = absurd (cc e)
        batch_processed (ok _) u cs st o found (inr (e, changed)) =
            all_processed cs u st o
              (ap (find row_key id) changed ∙ (start_all-Once id r cs s.rows own o found).0)
        batch_processed (err _) u cs st o found (inl (e, fails, same)) =
            (r, ap (find row_key id) same ∙ found, left (inr fails))
        batch_processed (err _) u cs st o found (inr (e, changed)) = absurd (cc e)

    -- A tick makes of a row of the table what the answer of its dispatcher asks for.
    pub process_batch-Ticked :
        (id : String) (r : Row) (s : State S)
        → IsDistinct (map row_key s.rows)
        → find row_key id s.rows ≡ some r
        → r.attempts < 2 ^ 15 - 1
        → (r' : Row) × (find row_key id (process_batch ds s).rows ≡ some r') × Ticked s r r'
    unfolding process_batch claim_pending
    process_batch-Ticked id r s distinct found small =
        let own = key-find row_key id s.rows r found in
        let cs = claimed_rows s.now s.rows in
        elim (claimed_rows-cases s.now id r s.rows own distinct found) [
          | inl (o, due) ↦
              batch_processed id r own small s due (statement (start_all cs) s).0
                (statement (start_all cs) s).1 cs (claim-Steady cs s) o found
                (statement_cases (start_all cs) s)
          | inr (absent, why) ↦
              (r, (process_batch-Spares ds id s absent).row ∙ found, left (inl why))
        ]
