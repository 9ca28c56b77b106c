-- ===== src/MobileMoney/Operators/Once.antt =====
-- A payout that is sent again by `SendPayout` of an operator's provider, to an operator that knows an
-- idempotency key again.
use ma_secure.Base.{
  String, Option, none, some, true, false, ◌≡◌, ◌≢◌, ◌⊎◌, inl, inr, refl, ap, sym, ◌∙◌, ◌≤◌, ◌<◌,
  List, [], ◌∷◌, arith,
}
use mathlib.Core.Path.{subst}
use ma_secure.Base.Text.{slice}
use ma_secure.Base.Json.{Json}
use ma_secure.Base.Effect.{Result, ok}
use ma_secure.MobileMoney.Providers.{PayoutCommand, DispatchResult, LiveConfig}
use ma_secure.MobileMoney.Operators.{
  Operator, orange, moov, wave, OperatorError, OperatorRequest, OperatorResponse, is_duplicate,
  payout_payload, send_payout,
}
use ma_secure.MobileMoney.Operators.Laws.{
  Settles, repeated, turned_down, unreadable, taken, SendOutcome, too_short, asked, send_payout_lem,
}

-- The operator has made a payout, now or before.
abbrev pub HasTaken : Operator → OperatorResponse → Type 0
HasTaken op a = (is_duplicate op a.status ≡ true) ⊎ ((200 ≤ a.status) × (a.status < 300))

-- Once the operator has answered that it took a payout, it answers a request with the same key that
-- it had it, and nothing more happens.
pub record KnowsKeys {W : Type 0} (op : Operator)
    (client : OperatorRequest → W → Option OperatorResponse × W) : Type 0 where
  pub again :
      (r r' : OperatorRequest) (w : W) (a : OperatorResponse)
      → r'.idempotency_key ≡ r.idempotency_key
      → (client r w).0 ≡ some a
      → HasTaken op a
      → (b : OperatorResponse) × (is_duplicate op b.status ≡ true)
        × (client r' (client r w).1 ≡ (some b, (client r w).1))

payout_payload-slice :
    (op : Operator) (config : LiveConfig) (cmd : PayoutCommand) (p : Json)
    → payout_payload op config cmd ≡ some p
    → op ≢ wave
    → slice 8 cmd.cycle_id ≢ none
unfolding payout_payload
payout_payload-slice orange config cmd p h d k = ground arith
payout_payload-slice moov config cmd p h d k = ground arith
payout_payload-slice wave config cmd p h d k = d refl

module _ {W : Type 0} (client : OperatorRequest → W → Option OperatorResponse × W)
    (mac : String → String → String) (print : Json → String) (parse : String → Option Json)
    (op : Operator) (config : LiveConfig) (cmd : PayoutCommand) where
  -- The worlds in which the operator has the payout.
  Has : W → Type 0
  Has w =
      (r : OperatorRequest)
      → r.idempotency_key ≡ cmd.idempotency_key
      → (b : OperatorResponse) × (is_duplicate op b.status ≡ true) × (client r w ≡ (some b, w))

  Settles-taken :
      (o : Option OperatorResponse) (d : DispatchResult)
      → Settles op cmd parse o (ok d)
      → (a : OperatorResponse) × (o ≡ some a) × HasTaken op a
  Settles-taken _ _ (repeated {a} ref h k) = (a, refl, inl h)
  Settles-taken _ _ (taken {a} ref status at_once c h k l) = (a, refl, inr h)

  Settles-repeated :
      (b : OperatorResponse) (r : Result OperatorError DispatchResult)
      → is_duplicate op b.status ≡ true
      → Settles op cmd parse (some b) r
      → (d : DispatchResult) × (r ≡ ok d) × (d.confirm_immediately ≡ false)
  Settles-repeated b _ dup (repeated ref h k) =
      (record { external_ref = ref; confirm_immediately = false }, refl, refl)
  Settles-repeated b _ dup (turned_down h k) = absurd (cc (dup, h))
  Settles-repeated b _ dup (unreadable c h k) = absurd (cc (dup, c))
  Settles-repeated b _ dup (taken ref status at_once c h k l) = absurd (cc (dup, c))

  -- After a payout went through, the operator has it.
  Outcome-Has :
      (time : String) (w : W) (r : Result OperatorError DispatchResult) (w' : W)
      (d : DispatchResult)
      → KnowsKeys op client
      → SendOutcome client mac print parse op config time cmd w r w'
      → r ≡ ok d
      → ((p : Json) × (payout_payload op config cmd ≡ some p)) × Has w'
  unfolding Has
  Outcome-Has time w _ _ d k (too_short a b) h = absurd (cc h)
  Outcome-Has time w r w' d k (asked p request payload built key after settles) h = (
    (p, payload),
    λ r' same.
        let (a, answered, has) =
          Settles-taken _ d (subst (Settles op cmd parse (client request w).0) h settles) in
        let (b, duplicate, e) = k.again request r' w a (same ∙ sym key) answered has in
        (b, duplicate, subst (λ v. client r' v ≡ (some b, v)) after e),
  )

  -- Sending a payout that the operator has changes nothing, and goes through.
  Outcome-again :
      (time : String) (w : W) (r : Result OperatorError DispatchResult) (w' : W) (p : Json)
      → payout_payload op config cmd ≡ some p
      → Has w
      → SendOutcome client mac print parse op config time cmd w r w'
      → (w' ≡ w) × ((d : DispatchResult) × (r ≡ ok d) × (d.confirm_immediately ≡ false))
  unfolding Has
  Outcome-again time w _ _ p payload has (too_short a b) =
      absurd (payout_payload-slice op config cmd p payload a b)
  Outcome-again time w r w' p payload has (asked q request e built key after settles) =
      let (b, duplicate, known) = has request key in
      (
        sym after ∙ ap (λ x. x.1) known,
        Settles-repeated b r duplicate
            (subst (λ o. Settles op cmd parse o r) (ap (λ x. x.0) known) settles),
      )

  -- The world after the payout is sent at each of the times.
  pub send_at : List String → W → W
  send_at [] w = w
  send_at (time ∷ times) w =
      send_at times (send_payout client mac print parse op config time cmd w).1

  send_at-same :
      (times : List String) (w : W) (p : Json)
      → payout_payload op config cmd ≡ some p
      → Has w
      → send_at times w ≡ w
  unfolding send_at
  send_at-same [] w p payload has = refl
  send_at-same (time ∷ times) w p payload has =
      let same =
        (Outcome-again time w _ _ p payload has
          (send_payout_lem client mac print parse op config time cmd w)).0 in
      ap (send_at times) same ∙ send_at-same times w p payload has

  -- With an operator that knows an idempotency key again: once a payout went through, sending it
  -- however many times more leaves the operator as it is, and each time goes through without a
  -- confirmation at once.
  pub send_payout-once :
      KnowsKeys op client
      → (time : String) (w : W) (d : DispatchResult)
      → (send_payout client mac print parse op config time cmd w).0 ≡ ok d
      → let w' = (send_payout client mac print parse op config time cmd w).1 in
        ((times : List String) → send_at times w' ≡ w')
        × ((later : String)
            → (e : DispatchResult) × ((send_payout client mac print parse op config later cmd w').0
                ≡ ok e)
              × (e.confirm_immediately ≡ false))
  send_payout-once k time w d h =
      let ((p, payload), has) =
        Outcome-Has time w _ _ d k (send_payout_lem client mac print parse op config time cmd w)
          h in
      (
        λ times. send_at-same times _ p payload has,
        λ later.
            (Outcome-again later _ _ _ p payload has
              (send_payout_lem client mac print parse op config later cmd _)).1,
      )
