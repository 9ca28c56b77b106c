-- ===== src/Outbox/Worker.antt =====
-- The worker of internal/outboxworker/worker.go: what a tick of its loop does to the table
-- `outbox_events`. The dispatchers are parameters, with a state `S` of their own (the providers
-- and services behind them); any statement of the database may fail.
pub mod Laws
pub mod Outcome
pub mod Claim
pub mod Steady
pub mod Ticks
pub mod Schedule
pub mod Live
use ma_secure.Base.{
  ℕ, zero, suc, ◌+◌, ◌-◌, String, Option, none, some, Bool, true, false, ◌<>◌, not, ◌&&◌, ◌||◌,
  ◌==◌, List, [], ◌∷◌, leb, ltb, if◌then◌else◌,
}
use ma_secure.Base.Int.{ℤ, pos, negsuc, leb_ℤ, ltb_ℤ}
use ma_secure.Base.Keyed.{update}
use ma_secure.Base.Effect.{Result, Exec, ok, err, pure, raise, continue, ◌>>=◌, ◌>>◌}
use ma_secure.Outbox.Backoff.{backoff_duration, next_attempt, signed}

abbrev pub max_attempts : ℕ
max_attempts = 10

abbrev pub batch_size : ℕ
batch_size = 50

-- the values of the column `status`
pub data Status : Type 0 where
  pending processing delivered failed dead_letter : Status

-- A row of the table. `attempts` is the pattern of an `int16`; `next_retry_at` counts nanoseconds.
pub record Row : Type 0 where
  pub id : String
  pub event_type : String
  pub aggregate_id : String
  pub payload : String
  pub target_service : String
  pub idempotency_key : String
  pub attempts : ℕ
  pub status : Status
  pub next_retry_at : ℤ
  pub error_detail : Option String

-- The interface `Dispatcher`.
pub record Dispatcher (S : Type 0) : Type 0 where
  pub can_handle : String → Bool
  pub dispatch : Row → Exec String S String

pub record State (S : Type 0) : Type 0 where
  pub rows : List Row
  pub world : S
  pub faults : List Bool
  pub now : ℕ

abbrev pub row_key : Row → String
row_key r = r.id

-- `time.Now().Add(d)`
abbrev pub plus : ℕ → ℤ → ℤ
plus now (pos d) = pos (now + d)
plus now (negsuc d) = if leb (suc d) now then pos (now - suc d) else negsuc (d - now)

-- `status IN ('pending','failed') AND next_retry_at <= NOW()`
abbrev pub is_waiting : Status → Bool
is_waiting pending = true
is_waiting failed = true
is_waiting _ = false

unfoldable pub is_due : ℕ → Row → Bool
is_due now r = is_waiting r.status && leb_ℤ r.next_retry_at (pos now)

unfoldable pub due_rows : ℕ → List Row → List Row
due_rows now [] = []
due_rows now (r ∷ rs) = let rest = due_rows now rs in if is_due now r then r ∷ rest else rest

-- `ORDER BY next_retry_at ASC`
unfoldable pub insert_row : Row → List Row → List Row
insert_row r [] = r ∷ []
insert_row r (x ∷ xs) =
    let rest = insert_row r xs in
    if ltb_ℤ x.next_retry_at r.next_retry_at then x ∷ rest else r ∷ x ∷ xs

unfoldable pub order_rows : List Row → List Row
unfolding insert_row
order_rows [] = []
order_rows (r ∷ rs) = insert_row r (order_rows rs)

-- `LIMIT $1`
unfoldable pub limit : ℕ → List Row → List Row
limit zero rs = []
limit (suc n) [] = []
limit (suc n) (r ∷ rs) = r ∷ limit n rs

unfoldable pub claimed_rows : ℕ → List Row → List Row
unfolding due_rows order_rows limit
claimed_rows now rows = limit batch_size (order_rows (due_rows now rows))

abbrev pub start : Row → Row
start r = record r { status = processing }

unfoldable pub start_all : List Row → List Row → List Row
start_all [] rows = rows
start_all (c ∷ cs) rows = start_all cs (update row_key c.id start rows)

module _ {S : Type 0} where
  -- A statement: it fails if the next fault says so.
  unfoldable pub statement : (List Row → List Row) → Exec String (State S) (Unit {0})
  statement f s = answer s.faults
    where
      answer : List Bool → Result String (Unit {0}) × State S
      answer [] = (ok tt, record s { rows = f s.rows })
      answer (true ∷ rest) = (err "database", record s { faults = rest })
      answer (false ∷ rest) = (ok tt, record s { rows = f s.rows; faults = rest })

  -- The rows come back in the order they are claimed in; the statement leaves that order open.
  unfoldable pub claim_pending : Exec String (State S) (List Row)
  claim_pending s =
      ((do statement (start_all (claimed_rows s.now s.rows)); pure (claimed_rows s.now s.rows)) s)

  unfoldable pub mark_delivered : String → Exec String (State S) (Unit {0})
  mark_delivered id =
      statement (update row_key id (λ r. record r { status = delivered; error_detail = none }))

  unfoldable pub schedule_retry : Row → String → Exec String (State S) (Unit {0})
  schedule_retry row message s =
      let na = next_attempt row.attempts in
      statement
        (update row_key row.id (λ r. record r {
          status = failed;
          attempts = na;
          next_retry_at = plus s.now (backoff_duration na);
          error_detail = some message;
        }))
        s

  unfoldable pub mark_dead_letter : String → String → Exec String (State S) (Unit {0})
  mark_dead_letter id message =
      statement
        (update row_key id (λ r. record r { status = dead_letter; error_detail = some message }))

  module _ (dispatchers : List (Dispatcher S)) where
    unfoldable pub find_dispatcher : String → Option (Dispatcher S)
    find_dispatcher target = first dispatchers
      where
        first : List (Dispatcher S) → Option (Dispatcher S)
        first [] = none
        first (d ∷ ds) = if d.can_handle target then some d else first ds

    -- The answer of `Dispatch`, and what is written for it.
    unfoldable pub finish_one : Row → Result String String → Exec String (State S) (Unit {0})
    finish_one row (ok ref) = mark_delivered row.id
    finish_one row (err message) =
        if leb_ℤ (pos max_attempts) (signed 16 (next_attempt row.attempts))
        then mark_dead_letter row.id message
        else schedule_retry row message

    -- A dispatcher changes the world and not the table.
    abbrev pub dispatch_with : Dispatcher S → Row → State S → Result String String × State S
    dispatch_with d row s =
        ((d.dispatch row s.world).0, record s { world = (d.dispatch row s.world).1 })

    unfoldable pub process_with : Option (Dispatcher S) → Row → Exec String (State S) (Unit {0})
    process_with none row s = schedule_retry row ("no dispatcher for: " <> row.target_service) s
    process_with (some d) row s = finish_one row (dispatch_with d row s).0 (dispatch_with d row s).1

    unfoldable pub process_one : Row → Exec String (State S) (Unit {0})
    process_one row = process_with (find_dispatcher row.target_service) row

    -- The loop of `processBatch`: an error of one row is logged.
    unfoldable pub process_all : List Row → State S → State S
    process_all [] s = s
    process_all (r ∷ rs) s = process_all rs (process_one r s).1

    unfoldable pub after_claim : Result String (List Row) → State S → State S
    after_claim (err e) s = s
    after_claim (ok rows) s = process_all rows s

    unfoldable pub process_batch : State S → State S
    process_batch s = after_claim (claim_pending s).0 (claim_pending s).1

    -- One tick after another, at the times that the clock tells; the poll interval between them is
    -- left open.
    unfoldable pub run : List ℕ → State S → State S
    run [] s = s
    run (now ∷ ticks) s = run ticks (process_batch (record s { now = now }))
