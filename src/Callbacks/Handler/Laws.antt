-- ===== src/Callbacks/Handler/Laws.antt =====
-- What reaches the kernel through the callbacks of api/handlers.
use ma_secure.Base.{
  String, Option, none, some, Bool, true, false, not, ◌≡◌, ◌⊎◌, refl, eq_iff, arith, if◌then◌else◌,
}
use ma_secure.Base.Json.{Json}
use ma_secure.Base.Fallible.{Result, ok, err}
use ma_secure.Callbacks.Payload.{
  Callback, PayoutStatus, ParseError, not_decoded, KernelCall, contribution, payout_confirmation,
  payout_failure,
}
use ma_secure.Callbacks.Adapters.{Adapter, resolve_adapter, parse_callback, parse_payout}
use ma_secure.Callbacks.Handler.{
  accept, parse_with, handle, Request, Reply, refuse, process_callback, process_payout_status,
  verify_hmac, handle_callback, handle_payout_callback,
}
use ma_secure.Callbacks.Handler.Valid.{
  IsValid, IsValidPayout, Yields-parse_callback, Yields-parse_payout,
}

abbrev pub contribution_of : Callback → KernelCall
contribution_of p = contribution (record {
  provider_tx_ref = p.provider_tx_ref;
  payer_msisdn = p.payer_msisdn;
  amount_minor = p.amount_minor;
  cycle_id = p.cycle_ref;
  provider = p.provider;
})

process_callback_inv :
    (p : Callback) (c : KernelCall)
    → process_callback p ≡ some c
    → (p.status ≡ "success") × (c ≡ contribution_of p)
unfolding process_callback
process_callback_inv p c h = ground (arith, eq_iff p.status "success")

process_payout_status_inv :
    (p : PayoutStatus) (c : KernelCall)
    → process_payout_status p ≡ some c
    → ((p.status ≡ "success") × (c ≡ payout_confirmation p.cycle_id p.external_ref))
      ⊎ ((p.status ≡ "failed") × (c ≡ payout_failure p.cycle_id p.external_ref p.reason))
unfolding process_payout_status
process_payout_status_inv p c h =
    ground (arith, eq_iff p.status "success", eq_iff p.status "failed")

-- What both handlers ask of a request before its payload is processed.
module _ {A B : Type 0} (mac : String → B → String) (parse : B → Option Json)
    (adapt : Adapter → Json → Result ParseError A) (process : A → Option KernelCall)
    (secret : String) (r : Request B) (c : KernelCall) where
  -- What a call of the kernel that a callback starts goes back to.
  pub record Accepted : Type 0 where
    pub body : B
    pub received : r.body ≡ some body
    pub verified : verify_hmac mac parse secret r.signature body ≡ true
    pub adapter : Adapter
    pub adapts : resolve_adapter r.provider ≡ some adapter
    pub json : Json
    pub decodes : parse body ≡ some json
    pub payload : A
    pub parses : adapt adapter json ≡ ok payload
    pub processed : process payload ≡ some c

  module _ (body : B) (received : r.body ≡ some body) where
    by_payload :
        (a : Adapter) (j : Json)
        → verify_hmac mac parse secret r.signature body ≡ true
        → resolve_adapter r.provider ≡ some a
        → parse body ≡ some j
        → (o : Result ParseError A) → adapt a j ≡ o
        → (accept process o).started ≡ some c
        → Accepted
    by_payload a j v adapts d (err e) parses h = absurd (cc h)
    by_payload a j v adapts d (ok p) parses h = record {
      body = body;
      received = received;
      verified = v;
      adapter = a;
      adapts = adapts;
      json = j;
      decodes = d;
      payload = p;
      parses = parses;
      processed = h;
    }

    by_json :
        (a : Adapter)
        → verify_hmac mac parse secret r.signature body ≡ true
        → resolve_adapter r.provider ≡ some a
        → (o : Option Json) → parse body ≡ o
        → (accept process (elim o [ none ↦ err not_decoded | some j ↦ adapt a j ])).started ≡ some c
        → Accepted
    by_json a v adapts none d h = absurd (cc h)
    by_json a v adapts (some j) d h = by_payload a j v adapts d (adapt a j) refl h

    by_adapter :
        (o : Option Adapter)
        → resolve_adapter r.provider ≡ o
        → verify_hmac mac parse secret r.signature body ≡ true
        → (elim o as (λ _. Reply) [
          | none ↦ refuse 400
          | some a ↦ accept process (parse_with mac parse (adapt a) body)
        ]).started
          ≡ some c
        → Accepted
    by_adapter none adapts v h = absurd (cc h)
    by_adapter (some a) adapts v h = by_json a v adapts (parse body) refl h

    by_signature :
        (v : Bool)
        → verify_hmac mac parse secret r.signature body ≡ v
        → (if not v then refuse 401 else elim (resolve_adapter r.provider) as (λ _. Reply) [
          | none ↦ refuse 400
          | some a ↦ accept process (parse_with mac parse (adapt a) body)
        ]).started
          ≡ some c
        → Accepted
    by_signature false v h = absurd (cc h)
    by_signature true v h = by_adapter (resolve_adapter r.provider) refl v h

  handle-Accepted :
      (o : Option B)
      → r.body ≡ o
      → (handle mac parse adapt process secret r o).started ≡ some c
      → Accepted
  handle-Accepted none e h = absurd (cc h)
  handle-Accepted (some body) e h =
      by_signature body e (verify_hmac mac parse secret r.signature body) refl h

module _ {B : Type 0} (mac : String → B → String) (parse : B → Option Json) where
  abbrev AcceptedCallback : String → Request B → KernelCall → Type 0
  AcceptedCallback = Accepted mac parse parse_callback process_callback

  abbrev AcceptedPayout : String → Request B → KernelCall → Type 0
  AcceptedPayout = Accepted mac parse parse_payout process_payout_status

  -- A call of the kernel that a contribution callback starts: it carries the payload of an accepted
  -- request, which is valid and reports success.
  pub record Forwarded (secret : String) (r : Request B) (c : KernelCall) : Type 0 where
    pub accepted : AcceptedCallback secret r c
    pub valid : IsValid accepted.payload
    pub succeeded : accepted.payload.status ≡ "success"
    pub call : c ≡ contribution_of accepted.payload

  -- A call of the kernel that a payout callback starts: it confirms the payout of an accepted
  -- request or tells of its failure, as the status says, with the payload's cycle and reference.
  pub record ForwardedPayout (secret : String) (r : Request B) (c : KernelCall) : Type 0 where
    pub accepted : AcceptedPayout secret r c
    pub valid : IsValidPayout accepted.payload
    pub call :
        ((accepted.payload.status ≡ "success")
          × (c ≡ payout_confirmation accepted.payload.cycle_id accepted.payload.external_ref))
        ⊎ ((accepted.payload.status ≡ "failed")
            × (c
                ≡ payout_failure accepted.payload.cycle_id accepted.payload.external_ref
                    accepted.payload.reason))

  -- Whatever a contribution callback makes the kernel called with was in a body that was read, whose
  -- signature passed the check (which an empty secret turns off), which the adapter of the path's
  -- provider parsed into a payload that is valid and reports success; and the call carries it.
  pub handle_callback-Forwarded :
      (secret : String) (r : Request B) (c : KernelCall)
      → (handle_callback mac parse secret r).started ≡ some c
      → Forwarded secret r c
  unfolding handle_callback
  handle_callback-Forwarded secret r c h =
      let a : AcceptedCallback secret r c =
        handle-Accepted mac parse parse_callback process_callback secret r c r.body refl h in
      let (succeeded, call) = process_callback_inv a.payload c a.processed in
      record {
        accepted = a;
        valid = (Yields-parse_callback a.adapter a.json).of a.payload a.parses;
        succeeded = succeeded;
        call = call;
      }

  -- Whatever a payout callback makes the kernel called with was in a body that was read, whose
  -- signature passed the check (which an empty secret turns off), which the adapter of the path's
  -- provider parsed into a payload that is valid; the call confirms the payout if the payload
  -- reports success and tells of its failure if it reports that, with its cycle and reference.
  pub handle_payout_callback-Forwarded :
      (secret : String) (r : Request B) (c : KernelCall)
      → (handle_payout_callback mac parse secret r).started ≡ some c
      → ForwardedPayout secret r c
  unfolding handle_payout_callback
  handle_payout_callback-Forwarded secret r c h =
      let a : AcceptedPayout secret r c =
        handle-Accepted mac parse parse_payout process_payout_status secret r c r.body refl h in
      record {
        accepted = a;
        valid = (Yields-parse_payout a.adapter a.json).of a.payload a.parses;
        call = process_payout_status_inv a.payload c a.processed;
      }
