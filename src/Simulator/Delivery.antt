-- ===== src/Simulator/Delivery.antt =====
-- A payout that is asked of the simulator for the first time: its reference, and its callback.
use ma_secure.Base.{
  String, ◌<>◌, Option, none, some, true, false, ◌≡◌, inl, inr, refl, ◌==◌, eq_refl, arith,
  Bool-cases, if◌then◌else◌, List, ◌∷◌,
}
use ma_secure.Base.Json.{Json}
use ma_secure.Base.Keyed.{find}
use ma_secure.Base.Text.{is_blank, is_space}
use ma_secure.Base.Text.Laws.{is_blank-prefix}
use ma_secure.MobileMoney.{normalize_provider}
use ma_secure.Callbacks.Adapters.{Adapter}
use ma_secure.Callbacks.Handler.{Request, handle_payout_callback}
use ma_secure.Simulator.{
  PayoutRecord, PayoutRequest, Settings, Answer, record_key, callback_status, record_payout,
  dispatch_callback, verify_signature, handle_payout,
}
use ma_secure.Simulator.RoundTrip.{
  Known, Outcome, paid, refused, record_of, report, dispatch_callback-accepted,
}

reference_visible : (key : String) → is_blank ("agg-ref-" <> key) ≡ false
unfolding is_space
reference_visible key = is_blank-prefix "a" "gg-ref-" key refl

-- What the simulator reports in its mode.
abbrev pub reason_of : Settings → String
reason_of s = if s.mode == "failed" then "simulated_provider_failure" else ""

status-Outcome : (s : Settings) → Outcome (callback_status s) (reason_of s)
unfolding callback_status
status-Outcome s = elim (Bool-cases (s.mode == "failed")) [
  | inl e ↦ rw e refused
  | inr e ↦ rw e paid
]

record_first :
    (key provider status : String) (records : List PayoutRecord)
    → find record_key key records ≡ none
    → record_payout key provider status records ≡ (
      (record_of key ("agg-ref-" <> key) provider status, true),
      record_of key ("agg-ref-" <> key) provider status ∷ records,
    )
unfolding record_payout
record_first key provider status records fresh = ground (arith, fresh)

-- The record of a payout that is taken for the first time.
abbrev pub new_record : Settings → PayoutRequest → PayoutRecord
new_record s req =
    record_of req.idempotency_key ("agg-ref-" <> req.idempotency_key)
      (normalize_provider req.provider) (callback_status s)

module _ {B : Type 0} (mac : String → B → String) (marshal : Json → B) (s : Settings)
    (signature : String) (body : B) (req : PayoutRequest) (records : List PayoutRecord)
    (key : is_blank req.idempotency_key ≡ false) (cycle : is_blank req.cycle_id ≡ false)
    (signed : verify_signature mac marshal s signature body ≡ true)
    (fresh : find record_key req.idempotency_key records ≡ none) where
  pub first_answer : handle_payout mac marshal s s.api_key signature body (some req) records ≡ (
    record {
      status = 202;
      external_ref = "agg-ref-" <> req.idempotency_key;
      callback = some (dispatch_callback mac marshal s req.cycle_id (new_record s req));
    },
    new_record s req ∷ records,
  )
  unfolding handle_payout
  first_answer =
      rw
        (
          eq_refl s.api_key,
          signed,
          key,
          cycle,
          record_first req.idempotency_key (normalize_provider req.provider) (callback_status s)
              records fresh,
        )
        refl

module _ {B : Type 0} (mac : String → B → String) (marshal : Json → B) (parse : B → Option Json)
    (parse-marshal : (j : Json) → parse (marshal j) ≡ some j) where
  -- The answer to a request for a payout, and what the API does with the callback that it starts.
  pub record Delivered (s : Settings) (req : PayoutRequest) (answer : Answer B) : Type 0 where
    pub status : answer.status ≡ 202
    pub external_ref : answer.external_ref ≡ "agg-ref-" <> req.idempotency_key
    pub callback : Request B
    pub started : answer.callback ≡ some callback
    pub told : handle_payout_callback mac parse s.callback_secret callback ≡ record {
      status = 200;
      started = some (
          report req.cycle_id
            ("agg-ref-" <> req.idempotency_key)
            (callback_status s)
            (reason_of s));
    }

  module _ (s : Settings) (signature : String) (body : B) (req : PayoutRequest) (a : Adapter)
      (records : List PayoutRecord) (key : is_blank req.idempotency_key ≡ false)
      (cycle : is_blank req.cycle_id ≡ false)
      (signed : verify_signature mac marshal s signature body ≡ true)
      (fresh : find record_key req.idempotency_key records ≡ none) where
    -- A payout that is asked for the first time, with the right key and signature, for a provider
    -- that the API knows: the answer is 202 with a reference made of the idempotency key, and the
    -- callback that it starts makes the API tell the kernel of the confirmation, or of the failure,
    -- with the same cycle and the same reference.
    pub handle_payout-Delivered :
        Known (normalize_provider req.provider) a
        → Delivered s req
            (handle_payout mac marshal s s.api_key signature body (some req) records).0
    handle_payout-Delivered known =
        rw (first_answer mac marshal s signature body req records key cycle signed fresh) (record {
          status = refl;
          external_ref = refl;
          callback = dispatch_callback mac marshal s req.cycle_id (new_record s req);
          started = refl;
          told =
              dispatch_callback-accepted mac marshal parse parse-marshal s req.cycle_id
                req.idempotency_key ("agg-ref-" <> req.idempotency_key)
                (normalize_provider req.provider) (callback_status s) (reason_of s) a cycle
                (reference_visible req.idempotency_key) known (status-Outcome s);
        })
