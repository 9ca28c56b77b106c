-- ===== src/Outbox/Worker/Live.antt =====
-- Every event comes to an end, if the database answers and the worker keeps ticking.
use ma_secure.Base.{
  ℕ, zero, suc, Bool-cases, ◌+◌, ◌<◌, ◌≤◌, String, some, true, false, ◌≡◌, ◌⊎◌, inl, inr, refl, sym,
  ◌∙◌, ap, List, [], ◌∷◌, map, IsDistinct, length, arith,
}
use mathlib.Core.Path.{subst}
use ma_secure.Base.Int.{pos, leb_ℤ}
use ma_secure.Base.Keyed.{find}
use ma_secure.Outbox.Backoff.{backoff_duration, day}
use ma_secure.Outbox.Worker.{
  Row, State, Dispatcher, row_key, max_attempts, batch_size, plus, is_waiting, is_due, due_rows,
  delivered, dead_letter, find_dispatcher, process_batch, run,
}
use ma_secure.Outbox.Worker.Laws.{run-keep_row}
use ma_secure.Outbox.Worker.Schedule.{
  Spans, IsOrdered, Spans-earlier, Spans-after, delay_within_day,
}
use ma_secure.Outbox.Worker.Steady.{process_batch-Steady}
use ma_secure.Outbox.Worker.Ticks.{
  Ticked, left, stuck, arrives, again, buried, process_batch-Ticked,
}

-- No tick finds more rows due than a batch takes.
abbrev pub HasRoom : {S : Type 0} → List (Dispatcher S) → List ℕ → State S → Type 0
HasRoom ds [] s = Unit
HasRoom ds (now ∷ ticks) s =
    (length (due_rows now s.rows) ≤ batch_size)
    × HasRoom ds ticks (process_batch ds (record s { now = now }))

length-due_rows : (now : ℕ) (rs : List Row) → length (due_rows now rs) ≤ length rs
unfolding due_rows
length-due_rows now [] = omega arith
length-due_rows now (c ∷ cs) = ground (arith, length-due_rows now cs)

length-keys : (xs ys : List Row) → map row_key xs ≡ map row_key ys → length xs ≡ length ys
length-keys [] [] e = refl
length-keys [] (y ∷ ys) e = absurd (cc e)
length-keys (x ∷ xs) [] e = absurd (cc e)
length-keys (x ∷ xs) (y ∷ ys) e = ap suc (length-keys xs ys (cc e))

-- A table of no more rows than a batch takes has room at all ticks.
pub few-HasRoom :
    {S : Type 0} (ds : List (Dispatcher S)) (ticks : List ℕ) (s : State S)
    → length s.rows ≤ batch_size
    → HasRoom ds ticks s
few-HasRoom ds [] s few = tt
few-HasRoom ds (now ∷ ticks) s few =
    let t = record s { now = now } in
    let keys = (process_batch-Steady ds t).keys in
    (
      omega (arith, few, length-due_rows now s.rows),
      few-HasRoom ds ticks (process_batch ds t)
          (omega (arith, few, length-keys (process_batch ds t).rows s.rows keys)),
    )

abbrev pub IsOver : Row → Type 0
IsOver r = (r.status ≡ delivered) ⊎ (r.status ≡ dead_letter)

IsOver-not_waiting : (r : Row) → IsOver r → is_waiting r.status ≡ false
IsOver-not_waiting r (inl e) = ap is_waiting e
IsOver-not_waiting r (inr e) = ap is_waiting e

-- A row for which a retry was written at `now`.
record IsPutBack (now : ℕ) (r r' : Row) : Type 0 where
  waits : is_waiting r'.status ≡ true
  counted : r'.attempts ≡ r.attempts + 1
  early : r.attempts + 1 < max_attempts
  later : r'.next_retry_at ≡ plus now (backoff_duration (r.attempts + 1))
  target : r'.target_service ≡ r.target_service

module _ {S : Type 0} (ds : List (Dispatcher S)) where
  -- What a tick makes of a due row with a dispatcher, if nothing fails and the batch has room.
  calm_tick :
      (s : State S) (r r' : Row) (d : Dispatcher S)
      → is_due s.now r ≡ true
      → length (due_rows s.now s.rows) ≤ batch_size
      → s.faults ≡ []
      → find_dispatcher ds r.target_service ≡ some d
      → Ticked ds s r r'
      → IsOver r' ⊎ IsPutBack s.now r r'
  calm_tick s r _ d due room calm found (left (inl (inl late))) = absurd (cc (due, late))
  calm_tick s r _ d due room calm found (left (inl (inr full))) = absurd (omega arith)
  calm_tick s r _ d due room calm found (left (inr fails)) = absurd (fails calm)
  calm_tick s r _ d due room calm found (stuck _ fails) = absurd (fails calm)
  calm_tick s r _ d due room calm found (arrives _ _ _ _ _ _) = inl (inl refl)
  calm_tick s r _ d due room calm found (again _ _ (inl e)) = absurd (cc (e, found))
  calm_tick s r _ d due room calm found (again _ _ (inr early)) =
      inr (record { waits = refl; counted = refl; early = early; later = refl; target = refl })
  calm_tick s r _ d due room calm found (buried _ _ _ _ _ _ _) = inl (inr refl)

  -- What is asked of a state, and of a row in it, for the row to come to an end.
  pub record IsLive (id : String) (r : Row) (d : Dispatcher S) (s : State S) : Type 0 where
    pub distinct : IsDistinct (map row_key s.rows)
    pub calm : s.faults ≡ []
    pub found : find row_key id s.rows ≡ some r
    pub waits : is_waiting r.status ≡ true
    pub early : r.attempts < max_attempts
    pub served : find_dispatcher ds r.target_service ≡ some d

  not_due : (s : State S) (r r' : Row) → is_due s.now r ≡ false → Ticked ds s r r' → r' ≡ r
  not_due s r _ late (left why) = refl
  not_due s r _ late (stuck due fails) = absurd (cc (due, late))
  not_due s r _ late (arrives d w ref due e answered) = absurd (cc (due, late))
  not_due s r _ late (again message due why) = absurd (cc (due, late))
  not_due s r _ late (buried d w message due e answered enough) = absurd (cc (due, late))

  live_due :
      (now : ℕ) (r : Row)
      → is_waiting r.status ≡ true
      → leb_ℤ r.next_retry_at (pos now) ≡ true
      → is_due now r ≡ true
  unfolding is_due
  live_due now r w h = rw w h

  -- The ticks that are left for a row, after one at which it was due, or was not.
  rest_due :
      (now k : ℕ) (ticks : List ℕ) (r : Row)
      → IsOrdered (now ∷ ticks)
      → Spans r.next_retry_at (suc k) (now ∷ ticks)
      → Spans (pos (now + day)) k ticks
  rest_due now k ticks r (first, o) (inl (due, s)) = s
  rest_due now k ticks r (first, o) (inr s) = Spans-after r.next_retry_at k now ticks first s

  rest_late :
      (now k : ℕ) (ticks : List ℕ) (r : Row)
      → is_waiting r.status ≡ true
      → is_due now r ≡ false
      → Spans r.next_retry_at (suc k) (now ∷ ticks)
      → Spans r.next_retry_at (suc k) ticks
  rest_late now k ticks r w late (inl (due, s)) = absurd (cc (live_due now r w due, late))
  rest_late now k ticks r w late (inr s) = s

  -- If no call of the database fails, the clock does not go back and no tick finds more rows due
  -- than a batch takes, then a row that waits with fewer than ten attempts, whose target has a
  -- dispatcher, is delivered or a dead letter at the end of any ticks among which there are so many,
  -- the first not before the row's next retry and each of the others a day or more after the one
  -- before, that they make ten with its attempts so far: whatever the dispatchers answer, and
  -- whatever ticks come between.
  pub run-IsOver :
      (id : String) (k : ℕ) (ticks : List ℕ) (s : State S) (r : Row) (d : Dispatcher S)
      → IsLive id r d s
      → HasRoom ds ticks s
      → IsOrdered ticks
      → Spans r.next_retry_at k ticks
      → max_attempts ≤ r.attempts + k
      → (r' : Row) × (find row_key id (run ds ticks s).rows ≡ some r') × IsOver r'
  unfolding run
  run-IsOver id zero ticks s r d live room ordered spans enough = absurd (omega (arith, live.early))
  run-IsOver id (suc k) [] s r d live room ordered spans enough = elim spans [ ]
  run-IsOver id (suc k) (now ∷ ticks) s r d live (fits, room) ordered spans enough =
      let t = record s { now = now } in
      let (r', found, ticked) =
        process_batch-Ticked ds id r t live.distinct live.found (omega (arith, live.early)) in
      let steady = process_batch-Steady ds t in
      let distinct = subst IsDistinct (sym steady.keys) live.distinct in
      elim (Bool-cases (is_due now r)) [
        | inl due ↦ elim (calm_tick t r r' d due fits live.calm live.served ticked) [
          | inl over ↦ (
            r',
            run-keep_row ds id ticks (process_batch ds t) r' distinct found
                (IsOver-not_waiting r' over),
            over,
          )
          | inr back ↦
              run-IsOver id k ticks (process_batch ds t) r' d
                (record {
                  distinct = distinct;
                  calm = steady.calm live.calm;
                  found = found;
                  waits = back.waits;
                  early = omega (arith, back.early, back.counted);
                  served = ap (find_dispatcher ds) back.target ∙ live.served;
                })
                room ordered.1
                (subst (λ z. Spans z k ticks) (sym back.later)
                  (Spans-earlier _ (pos (now + day)) k ticks
                    (delay_within_day now (r.attempts + 1) (omega (arith, back.early)))
                    (rest_due now k ticks r ordered spans)))
                (omega (arith, enough, back.counted))
        ]
        | inr late ↦
            run-IsOver id (suc k) ticks (process_batch ds t) r d
              (record {
                distinct = distinct;
                calm = steady.calm live.calm;
                found = found ∙ ap some (not_due t r r' late ticked);
                waits = live.waits;
                early = live.early;
                served = live.served;
              })
              room ordered.1 (rest_late now k ticks r live.waits late spans) enough
      ]
