-- ===== src/Outbox/Worker/Laws.antt =====
-- A row that does not wait for a delivery is never touched again.
use ma_secure.Base.{
  ℕ, zero, suc, String, Option, none, some, Bool, true, false, ◌&&◌, ◌≡◌, ◌≢◌, ◌⊎◌, inl, inr, refl,
  sym, ◌∙◌, ap, eq_iff, List, [], ◌∷◌, map, All, IsDistinct, arith, Bool-cases,
}
use mathlib.Core.Path.{subst}
use mathlib.Core.Option.{some-injective}
use ma_secure.Base.Int.{pos, ltb_ℤ, leb_ℤ}
use ma_secure.Base.Keyed.{find, update, find-update}
use ma_secure.Base.Effect.{Result, ok, err, pure, continue}
use ma_secure.Outbox.Backoff.{signed, next_attempt}
use ma_secure.Outbox.Worker.{
  max_attempts, Row, State, Dispatcher, row_key, is_waiting, is_due, due_rows, insert_row,
  order_rows, limit, claimed_rows, start, start_all, statement, claim_pending, mark_delivered,
  schedule_retry, mark_dead_letter, batch_size, find_dispatcher, finish_one, process_with,
  process_one, process_all, after_claim, process_batch, run,
}

module _ (P : Row → Type 0) where
  pub All-limit : (n : ℕ) (rs : List Row) → All P rs → All P (limit n rs)
  unfolding limit
  All-limit zero rs h = tt
  All-limit (suc n) [] h = tt
  All-limit (suc n) (r ∷ rs) (h, hs) = (h, All-limit n rs hs)

  pub All-insert_row : (r : Row) (rs : List Row) → P r → All P rs → All P (insert_row r rs)
  unfolding insert_row
  All-insert_row r [] p h = (p, tt)
  All-insert_row r (x ∷ xs) p (h, hs) = elim (Bool-cases (ltb_ℤ x.next_retry_at r.next_retry_at)) [
    | inl e ↦ rw e (h, All-insert_row r xs p hs)
    | inr e ↦ rw e (p, (h, hs))
  ]

  pub All-order_rows : (rs : List Row) → All P rs → All P (order_rows rs)
  unfolding order_rows
  All-order_rows [] h = tt
  All-order_rows (r ∷ rs) (h, hs) = All-insert_row r (order_rows rs) h (All-order_rows rs hs)

  pub All-due_rows :
      (now : ℕ) (rs : List Row)
      → All P rs
      → All (λ r. P r × (is_due now r ≡ true)) (due_rows now rs)
  unfolding due_rows
  All-due_rows now [] h = tt
  All-due_rows now (r ∷ rs) (h, hs) = elim (Bool-cases (is_due now r)) [
    | inl e ↦ rw e ((h, e), All-due_rows now rs hs)
    | inr e ↦ rw e (All-due_rows now rs hs)
  ]

-- The rows that are claimed have what all rows have, and are due.
All-claimed_rows :
    (P : Row → Type 0) (now : ℕ) (rs : List Row)
    → All P rs
    → All (λ r. P r × (is_due now r ≡ true)) (claimed_rows now rs)
unfolding claimed_rows
All-claimed_rows P now rs h =
    All-limit _ batch_size _ (All-order_rows _ _ (All-due_rows P now rs h))

pub map-All : (P Q : Row → Type 0) (rs : List Row) → ((r : Row) → P r → Q r) → All P rs → All Q rs
map-All P Q [] f h = tt
map-All P Q (r ∷ rs) f (h, hs) = (f r h, map-All P Q rs f hs)

-- With distinct keys, a row is the one that its key finds.
find_behind :
    (x : Row) (xs rest : List Row)
    → All (λ y. x.id ≢ y) (map row_key rest)
    → All (λ y. find row_key y.id xs ≡ some y) rest
    → All (λ y. find row_key y.id (x ∷ xs) ≡ some y) rest
unfolding find
find_behind x xs [] d h = tt
find_behind x xs (y ∷ ys) (d, ds) (h, hs) =
    (ground (arith, eq_iff x.id y.id), find_behind x xs ys ds hs)

find_each :
    (rs : List Row) → IsDistinct (map row_key rs) → All (λ y. find row_key y.id rs ≡ some y) rs
unfolding find
find_each [] d = tt
find_each (x ∷ xs) (d, ds) =
    (ground (arith, eq_iff x.id x.id), find_behind x xs xs d (find_each xs ds))

pub map-update :
    (id : String) (f : Row → Row) (rs : List Row)
    → ((r : Row) → row_key (f r) ≡ row_key r)
    → map row_key (update row_key id f rs) ≡ map row_key rs
unfolding update
map-update id f [] k = refl
map-update id f (r ∷ rs) k = ground (arith, k r, map-update id f rs k)

and_left : (a b : Bool) → (a && b) ≡ true → a ≡ true
and_left true b h = refl
and_left false b h = absurd (cc h)

not_waiting : (now : ℕ) (r c : Row) → is_waiting r.status ≡ false → is_due now c ≡ true → c ≢ r
unfolding is_due
not_waiting now r c w d e = absurd (cc (sym (and_left _ _ d) ∙ ap (λ r. is_waiting r.status) e ∙ w))

-- No row that is claimed has the key of a row that does not wait.
claimed_rows-other :
    (now : ℕ) (id : String) (r : Row) (rs : List Row)
    → IsDistinct (map row_key rs)
    → find row_key id rs ≡ some r
    → is_waiting r.status ≡ false
    → All (λ c. c.id ≢ id) (claimed_rows now rs)
claimed_rows-other now id r rs d found w =
    map-All _ (λ c. c.id ≢ id) _
      (λ c (finds, due) e.
        not_waiting now r c w due
          (some-injective _ _ (sym finds ∙ ap (λ i. find row_key i rs) e ∙ found)))
      (All-claimed_rows (λ y. find row_key y.id rs ≡ some y) now rs (find_each rs d))

module _ {S : Type 0} where
  statement_outcome :
      (f : List Row → List Row) (s : State S)
      → ((statement f s).1.rows ≡ s.rows) ⊎ ((statement f s).1.rows ≡ f s.rows)
  unfolding statement
  statement_outcome f s = ground arith

-- The keys stay, and so does the row of a key.
pub record Spares (id : String) (before after : List Row) : Type 0 where
  pub keys : map row_key after ≡ map row_key before
  pub row : find row_key id after ≡ find row_key id before

pub Spares-refl : (id : String) (rs : List Row) → Spares id rs rs
Spares-refl id rs = record { keys = refl; row = refl }

pub Spares-trans : (id : String) (a b c : List Row) → Spares id a b → Spares id b c → Spares id a c
Spares-trans id a b c p q = record { keys = q.keys ∙ p.keys; row = q.row ∙ p.row }

pub Spares-update :
    (id c : String) (f : Row → Row) (rs : List Row)
    → ((r : Row) → row_key (f r) ≡ row_key r)
    → c ≢ id
    → Spares id rs (update row_key c f rs)
Spares-update id c f rs k ne = record {
  keys = map-update c f rs k;
  row = ground (arith, find-update row_key c id f rs k, eq_iff c id);
}

pub Spares-start_all :
    (id : String) (cs rs : List Row) → All (λ c. c.id ≢ id) cs → Spares id rs (start_all cs rs)
unfolding start_all
Spares-start_all id [] rs h = Spares-refl id rs
Spares-start_all id (c ∷ cs) rs (h, hs) =
    Spares-trans id _ _ _ (Spares-update id c.id start rs (λ r. refl) h)
      (Spares-start_all id cs (update row_key c.id start rs) hs)

module _ {S : Type 0} where
  -- A statement fails, or changes the rows as it says.
  statement-Spares :
      (id : String) (f : List Row → List Row) (s : State S)
      → Spares id s.rows (f s.rows)
      → Spares id s.rows (statement f s).1.rows
  unfolding statement
  statement-Spares id f s h = elim (statement_outcome f s) [
    | inl e ↦ rw e (Spares-refl id s.rows)
    | inr e ↦ rw e h
  ]

  retry-Spares :
      (id message : String) (row : Row) (s : State S)
      → row.id ≢ id
      → Spares id s.rows (schedule_retry row message s).1.rows
  unfolding schedule_retry
  retry-Spares id message row s ne =
      statement-Spares id _ s (Spares-update id row.id _ s.rows (λ r. refl) ne)

  module _ (ds : List (Dispatcher S)) (id : String) where
    finish-Spares :
        (row : Row) (a : Result String String) (s : State S)
        → row.id ≢ id
        → Spares id s.rows (finish_one ds row a s).1.rows
    unfolding finish_one mark_delivered mark_dead_letter
    finish-Spares row (ok ref) s ne =
        statement-Spares id _ s (Spares-update id row.id _ s.rows (λ r. refl) ne)
    finish-Spares row (err message) s ne =
        elim (Bool-cases (leb_ℤ (pos max_attempts) (signed 16 (next_attempt row.attempts)))) [
          | inl e ↦ rw e (statement-Spares id _ s (Spares-update id row.id _ s.rows (λ r. refl) ne))
          | inr e ↦ rw e (retry-Spares id message row s ne)
        ]

    pub process_with-Spares :
        (d : Option (Dispatcher S)) (row : Row) (s : State S)
        → row.id ≢ id
        → Spares id s.rows (process_with ds d row s).1.rows
    unfolding process_with
    process_with-Spares none row s ne = retry-Spares id _ row s ne
    process_with-Spares (some d) row s ne = finish-Spares row _ _ ne

    pub process_all-Spares :
        (cs : List Row) (s : State S)
        → All (λ c. c.id ≢ id) cs
        → Spares id s.rows (process_all ds cs s).rows
    unfolding process_all process_one
    process_all-Spares [] s h = Spares-refl id s.rows
    process_all-Spares (c ∷ cs) s (h, hs) =
        Spares-trans id _ _ _ (process_with-Spares (find_dispatcher ds c.target_service) c s h)
          (process_all-Spares cs (process_one ds c s).1 hs)

    after_claim-Spares :
        (r : Result String (Unit {0})) (cs rs : List Row) (s : State S)
        → All (λ c. c.id ≢ id) cs
        → Spares id rs s.rows
        → Spares id rs
            (after_claim ds (continue (λ _. pure cs) r s).0 (continue (λ _. pure cs) r s).1).rows
    unfolding after_claim
    after_claim-Spares (ok _) cs rs s h p = Spares-trans id _ _ _ p (process_all-Spares cs s h)
    after_claim-Spares (err e) cs rs s h p = p

    pub process_batch-Spares :
        (s : State S)
        → All (λ c. c.id ≢ id) (claimed_rows s.now s.rows)
        → Spares id s.rows (process_batch ds s).rows
    unfolding process_batch claim_pending
    process_batch-Spares s h =
        let cs = claimed_rows s.now s.rows in
        after_claim-Spares (statement (start_all cs) s).0 cs s.rows (statement (start_all cs) s).1 h
          (statement-Spares id (start_all cs) s (Spares-start_all id cs s.rows h))

    -- A row that neither is pending nor failed stays as it is for good, whatever the dispatchers
    -- do, whichever statements fail, and however many ticks the worker runs: a delivered event is
    -- not sent again, a dead letter stays dead, and a row left in `processing` is not taken up.
    pub run-keep_row :
        (ticks : List ℕ) (s : State S) (r : Row)
        → IsDistinct (map row_key s.rows)
        → find row_key id s.rows ≡ some r
        → is_waiting r.status ≡ false
        → find row_key id (run ds ticks s).rows ≡ some r
    unfolding run
    run-keep_row [] s r d found w = found
    run-keep_row (now ∷ ticks) s r d found w =
        let spared =
          process_batch-Spares (record s { now = now })
            (claimed_rows-other now id r s.rows d found w) in
        run-keep_row ticks (process_batch ds (record s { now = now })) r
          (subst IsDistinct (sym spared.keys) d) (spared.row ∙ found) w
