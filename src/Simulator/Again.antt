-- ===== src/Simulator/Again.antt =====
-- A payout that is asked of the simulator again, with the same idempotency key.
use ma_secure.Base.{
  String, ◌<>◌, Option, none, some, Bool, true, false, ◌≡◌, refl, ap, ◌∙◌, eq_refl, eq_iff, arith,
  List, [], ◌∷◌,
}
use ma_secure.Base.Json.{Json}
use ma_secure.Base.Keyed.{find}
use ma_secure.Base.Text.{is_blank}
use ma_secure.MobileMoney.{normalize_provider}
use ma_secure.Simulator.{
  PayoutRecord, PayoutRequest, Settings, record_key, callback_status, record_payout,
  verify_signature, handle_payout,
}
use ma_secure.Simulator.RoundTrip.{record_of}
use ma_secure.Simulator.Delivery.{new_record, first_answer}

record_payout-keeps :
    (key : String) (r : PayoutRecord) (key2 provider status : String) (records : List PayoutRecord)
    → find record_key key records ≡ some r
    → find record_key key (record_payout key2 provider status records).1 ≡ some r
unfolding record_payout find
record_payout-keeps key r key2 provider status records h = kept (find record_key key2 records) refl
  where
    kept :
        (o : Option PayoutRecord)
        → find record_key key2 records ≡ o
        → find record_key key
            (elim o as (λ _. (PayoutRecord × Bool) × List PayoutRecord) [
              | some existing ↦ ((existing, false), records)
              | none ↦ (
                (record_of key2 ("agg-ref-" <> key2) provider status, true),
                record_of key2 ("agg-ref-" <> key2) provider status ∷ records,
              )
            ]).1
          ≡ some r
    kept (some existing) e = h
    kept none e = ground (arith, eq_iff key2 key)

known_record :
    (key : String) (r : PayoutRecord) (provider status : String) (records : List PayoutRecord)
    → find record_key key records ≡ some r
    → record_payout key provider status records ≡ ((r, false), records)
unfolding record_payout
known_record key r provider status records h = ground (arith, h)

-- A request for a payout, as it comes in: `request` is `none` if the body is not decoded.
pub record Ask (B : Type 0) : Type 0 where
  pub api_key : String
  pub signature : String
  pub body : B
  pub request : Option PayoutRequest

module _ {B : Type 0} (mac : String → B → String) (marshal : Json → B) (s : Settings) where
  -- The map after one request more, and after all.
  abbrev serve_ask : Ask B → List PayoutRecord → List PayoutRecord
  serve_ask a records =
      (handle_payout mac marshal s a.api_key a.signature a.body a.request records).1

  unfoldable pub serve_asks : List (Ask B) → List PayoutRecord → List PayoutRecord
  serve_asks [] records = records
  serve_asks (a ∷ asks) records = serve_asks asks (serve_ask a records)

  handle_payout-keeps :
      (key : String) (r : PayoutRecord) (api_key signature : String) (body : B)
      (o : Option PayoutRequest) (records : List PayoutRecord)
      → find record_key key records ≡ some r
      → find record_key key (handle_payout mac marshal s api_key signature body o records).1
        ≡ some r
  unfolding handle_payout
  handle_payout-keeps key r api_key signature body none records h = ground (arith, h)
  handle_payout-keeps key r api_key signature body (some req) records h = ground (
    arith,
    h,
    record_payout-keeps key r req.idempotency_key (normalize_provider req.provider)
        (callback_status s) records h,
  )

  serve_asks-keeps :
      (key : String) (r : PayoutRecord) (asks : List (Ask B)) (records : List PayoutRecord)
      → find record_key key records ≡ some r
      → find record_key key (serve_asks asks records) ≡ some r
  unfolding serve_asks
  serve_asks-keeps key r [] records h = h
  serve_asks-keeps key r (a ∷ asks) records h =
      serve_asks-keeps key r asks (serve_ask a records)
        (handle_payout-keeps key r a.api_key a.signature a.body a.request records h)

  known_answer :
      (req : PayoutRequest) (r : PayoutRecord) (signature : String) (body : B)
      (records : List PayoutRecord)
      → is_blank req.idempotency_key ≡ false
      → is_blank req.cycle_id ≡ false
      → verify_signature mac marshal s signature body ≡ true
      → find record_key req.idempotency_key records ≡ some r
      → handle_payout mac marshal s s.api_key signature body (some req) records
        ≡ (record { status = 202; external_ref = r.external_ref; callback = none }, records)
  unfolding handle_payout
  known_answer req r signature body records k c v h =
      rw
        (
          eq_refl s.api_key,
          v,
          k,
          c,
          known_record req.idempotency_key r (normalize_provider req.provider) (callback_status s)
              records h,
        )
        refl

  module _ (signature : String) (body : B) (req : PayoutRequest) (records : List PayoutRecord)
      (key : is_blank req.idempotency_key ≡ false) (cycle : is_blank req.cycle_id ≡ false)
      (signed : verify_signature mac marshal s signature body ≡ true)
      (fresh : find record_key req.idempotency_key records ≡ none) where
    -- After a payout that was taken for the first time and any requests after it, accepted or not: a
    -- request with the same idempotency key, the right API key, a signature that passes and a cycle
    -- that is not blank, whatever provider and cycle it names, is answered 202 with the reference of
    -- the first one, starts no callback, and leaves the records as they are.
    pub handle_payout-again :
        (between : List (Ask B)) (again : PayoutRequest) (signature2 : String) (body2 : B)
        → again.idempotency_key ≡ req.idempotency_key
        → is_blank again.cycle_id ≡ false
        → verify_signature mac marshal s signature2 body2 ≡ true
        → let first = handle_payout mac marshal s s.api_key signature body (some req) records in
          handle_payout mac marshal s s.api_key signature2 body2
            (some again)
            (serve_asks between first.1)
          ≡ (
            record { status = 202; external_ref = first.0.external_ref; callback = none },
            serve_asks between first.1,
          )
    unfolding find
    handle_payout-again between again signature2 body2 e c2 v2 =
        let r = new_record s req in
        let known =
          serve_asks-keeps req.idempotency_key r between (r ∷ records)
            (ground (arith, eq_refl req.idempotency_key)) in
        rw (first_answer mac marshal s signature body req records key cycle signed fresh) (
          known_answer again r signature2 body2 (serve_asks between (r ∷ records))
            (ap is_blank e ∙ key) c2 v2
            (ap (λ k. find record_key k (serve_asks between (r ∷ records))) e ∙ known))
