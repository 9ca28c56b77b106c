-- ===== src/MobileMoney/Operators/Laws.antt =====
-- What `SendPayout` of the three operators' providers comes to: orangemoney/provider.go,
-- moovmoney/provider.go and wavemoney/provider.go of internal/mobilemoney.
use ma_secure.Base.{
  ℕ, String, Option, none, some, Bool, true, false, not, ◌&&◌, ◌==◌, ◌≡◌, ◌≢◌, ◌↔◌, ◌⊎◌, refl, ◌≤◌,
  ◌<◌, eq_iff, arith, leb, ltb, if◌then◌else◌,
}
use ma_secure.Base.Text.{slice}
use ma_secure.Base.Json.{Json}
use ma_secure.Base.Effect.{Result, ok, err, lift, require_some, ◌>>=◌}
use ma_secure.MobileMoney.Providers.{PayoutCommand, DispatchResult, LiveConfig}
use ma_secure.MobileMoney.Operators.{
  Operator, orange, moov, wave, OperatorError, panicked, not_sent, not_decoded, refused,
  payout_payload, OperatorRequest, OperatorResponse, is_duplicate, ref_of_duplicate, read_answer,
  done_status, request_to, do_request, settle_payout, send_payout,
}

-- What an answer, `none` if there is none, makes of a payout.
pub data Settles (op : Operator) (cmd : PayoutCommand) (parse : String → Option Json)
    : Option OperatorResponse → Result OperatorError DispatchResult → Type 0 where
  silent : Settles op cmd parse none (err not_sent)
  repeated :
      {a : OperatorResponse} (ref : String)
      → is_duplicate op a.status ≡ true
      → ((ref_of_duplicate op (parse a.body) ≢ "") × (ref ≡ ref_of_duplicate op (parse a.body)))
        ⊎ ((ref_of_duplicate op (parse a.body) ≡ "") × (ref ≡ cmd.idempotency_key))
      → Settles op cmd parse
          (some a)
          (ok (record { external_ref = ref; confirm_immediately = false }))
  turned_down :
      {a : OperatorResponse}
      → is_duplicate op a.status ≡ false
      → (a.status < 200) ⊎ (300 ≤ a.status)
      → Settles op cmd parse (some a) (err (refused a.status))
  unreadable :
      {a : OperatorResponse}
      → is_duplicate op a.status ≡ false
      → (200 ≤ a.status) × (a.status < 300)
      → read_answer op (parse a.body) ≡ none
      → Settles op cmd parse (some a) (err not_decoded)
  taken :
      {a : OperatorResponse} (ref status : String) (at_once : Bool)
      → is_duplicate op a.status ≡ false
      → (200 ≤ a.status) × (a.status < 300)
      → read_answer op (parse a.body) ≡ some (ref, status)
      → at_once ≡ true ↔ status ≡ done_status op
      → Settles op cmd parse
          (some a)
          (ok (record { external_ref = ref; confirm_immediately = at_once }))

module _ {W : Type 0} (client : OperatorRequest → W → Option OperatorResponse × W)
    (mac : String → String → String) (print : Json → String) (parse : String → Option Json) where
  success_iff : (n : ℕ) → (leb 200 n && ltb n 300) ≡ true → (200 ≤ n) × (n < 300)
  success_iff n h = ground arith

  failure : (n : ℕ) → (leb 200 n && ltb n 300) ≡ false → (n < 200) ⊎ (300 ≤ n)
  failure n h = ground arith

  known_or_key :
      (known key : String)
      → ((known ≢ "") × ((if known == "" then key else known) ≡ known))
        ⊎ ((known ≡ "") × ((if known == "" then key else known) ≡ key))
  known_or_key known key = ground (arith, eq_iff known "")

  Settles-by :
      (op : Operator) (cmd : PayoutCommand) (a : OperatorResponse) (duplicate : Bool)
      → is_duplicate op a.status ≡ duplicate
      → (success : Bool) → (leb 200 a.status && ltb a.status 300) ≡ success
      → (o : Option (String × String)) → read_answer op (parse a.body) ≡ o
      → Settles op cmd parse (some a) (
          if duplicate
          then ok (record {
            external_ref =
                if ref_of_duplicate op (parse a.body) == ""
                then cmd.idempotency_key
                else ref_of_duplicate op (parse a.body);
            confirm_immediately = false;
          })
          else if not success
          then err (refused a.status)
          else elim o [
            | none ↦ err not_decoded
            | some (ref, status) ↦
                ok (record { external_ref = ref; confirm_immediately = status == done_status op })
          ])
  Settles-by op cmd a true d success s o r =
      let ref = ref_of_duplicate op (parse a.body) in
      repeated (if ref == "" then cmd.idempotency_key else ref) d
        (known_or_key ref cmd.idempotency_key)
  Settles-by op cmd a false d false s o r = turned_down d (failure a.status s)
  Settles-by op cmd a false d true s none r = unreadable d (success_iff a.status s) r
  Settles-by op cmd a false d true s (some (ref, status)) r =
      taken ref status (status == done_status op) d (success_iff a.status s) r
        (eq_iff status (done_status op))

  settle_payout-Settles :
      (op : Operator) (cmd : PayoutCommand) (a : Option OperatorResponse)
      → Settles op cmd parse a (settle_payout client mac print parse op cmd a)
  unfolding settle_payout
  settle_payout-Settles op cmd none = silent
  settle_payout-Settles op cmd (some a) = Settles-by op cmd a _ refl _ refl _ refl

  -- What a payout comes to, from a world on.
  pub data SendOutcome (op : Operator) (config : LiveConfig) (time : String) (cmd : PayoutCommand)
      (w : W) : Result OperatorError DispatchResult → W → Type 0 where
    too_short :
        op ≢ wave → slice 8 cmd.cycle_id ≡ none → SendOutcome op config time cmd w (err panicked) w
    asked :
        {r : Result OperatorError DispatchResult} {w' : W} (payload : Json)
        (request : OperatorRequest)
        → payout_payload op config cmd ≡ some payload
        → request ≡ request_to client mac print parse op config cmd time payload
        → request.idempotency_key ≡ cmd.idempotency_key
        → (client request w).1 ≡ w'
        → Settles op cmd parse (client request w).0 r
        → SendOutcome op config time cmd w r w'

  payout_payload-none :
      (op : Operator) (config : LiveConfig) (cmd : PayoutCommand)
      → payout_payload op config cmd ≡ none
      → (op ≢ wave) × (slice 8 cmd.cycle_id ≡ none)
  unfolding payout_payload
  payout_payload-none orange config cmd h = (λ e. absurd (cc e), ground arith)
  payout_payload-none moov config cmd h = (λ e. absurd (cc e), ground arith)
  payout_payload-none wave config cmd h = absurd (cc h)

  sent_by :
      (op : Operator) (config : LiveConfig) (time : String) (cmd : PayoutCommand) (w : W)
      (o : Option Json)
      → payout_payload op config cmd ≡ o
      → let r =
          (do
            payload ← require_some o panicked
            answered ←
                do_request client mac print parse
                  (request_to client mac print parse op config cmd time payload)
            lift (settle_payout client mac print parse op cmd answered))
            w in
        SendOutcome op config time cmd w r.0 r.1
  unfolding request_to
  sent_by op config time cmd w none h =
      let (a, b) = payout_payload-none op config cmd h in too_short a b
  sent_by op config time cmd w (some payload) h =
      asked payload (request_to client mac print parse op config cmd time payload) h refl refl refl
        (settle_payout-Settles op cmd _)

  -- What `SendPayout` of each of the three operators comes to: with an identifier of a cycle that is
  -- too short to slice, Orange and Moov panic before they ask; else the operator is asked once, with
  -- the command's key, and no answer is an error; an answer that tells of a payout it had is a success
  -- with the reference in it, or with the command's key if it has none, not confirmed; another answer outside 200 to 299 is an error; an
  -- unreadable one is an error; and else the payout has the reference of the answer, confirmed at once
  -- exactly if its status is the operator's word for done.
  pub send_payout_lem :
      (op : Operator) (config : LiveConfig) (time : String) (cmd : PayoutCommand) (w : W)
      → SendOutcome op config time cmd w
          (send_payout client mac print parse op config time cmd w).0
          (send_payout client mac print parse op config time cmd w).1
  unfolding send_payout
  send_payout_lem op config time cmd w = sent_by op config time cmd w _ refl
