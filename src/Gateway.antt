-- ===== src/Gateway.antt =====
-- The WhatsApp webhook of gateway/whatsapp/handler.go. `mac` is the hexadecimal HMAC-SHA256; the
-- events come with a body, as the messages that the loops of `parseAndRoute` visit, in order.
pub mod Laws
mod Examples
use ma_secure.Base.{
  ℕ, String, ◌<>◌, Option, none, some, Bool, true, false, not, ◌||◌, ◌==◌, List, [], ◌∷◌, ◌++◌,
  length, ltb, if◌then◌else◌,
}
use ma_secure.Base.Text.{strip_prefix, trim_space, to_lower}

pub data IntentType : Type 0 where
  confirm_participation request_config_change vote_approve vote_reject : IntentType
  query_balance query_audit unknown : IntentType

-- `UserIntent`; the group and the payload are never set.
pub record UserIntent : Type 0 where
  pub kind : IntentType
  pub from_msisdn : String
  pub raw_text : String

pub record Message : Type 0 where
  pub from : String
  pub text : String

-- `strings.HasPrefix`
unfoldable pub has_prefix : String → String → Bool
unfolding strip_prefix
has_prefix s p = elim (strip_prefix p s) [ none ↦ false | some _ ↦ true ]

unfoldable pub intent_type : String → IntentType
unfolding has_prefix
intent_type text =
    if has_prefix text "ok" || has_prefix text "confirme"
    then confirm_participation
    else if has_prefix text "vote oui" || text == "oui"
    then vote_approve
    else if has_prefix text "vote non" || text == "non"
    then vote_reject
    else if has_prefix text "solde" || has_prefix text "balance"
    then query_balance
    else if has_prefix text "audit" || has_prefix text "historique"
    then query_audit
    else unknown

unfoldable pub parse_intent : Message → UserIntent
unfolding intent_type trim_space to_lower
parse_intent msg =
    let text = trim_space (to_lower msg.text) in
    record { kind = intent_type text; from_msisdn = "+" <> msg.from; raw_text = text }

-- The channel: its capacity, and the intents that wait in it, the oldest first.
pub record Channel : Type 0 where
  pub capacity : ℕ
  pub queue : List UserIntent

-- the `select`: a full channel drops the intent
unfoldable pub send : UserIntent → Channel → Channel
send i ch =
    if ltb (length ch.queue) ch.capacity then record ch { queue = ch.queue ++ i ∷ [] } else ch

-- The loops of `parseAndRoute`, while nobody reads the channel.
unfoldable pub route : List Message → Channel → Channel
route [] ch = ch
route (m ∷ ms) ch = route ms (send (parse_intent m) ch)

-- `body` is `none` if it cannot be read.
pub record Webhook (B : Type 0) : Type 0 where
  pub signature : String
  pub body : Option B

module _ {B : Type 0} (mac : String → B → String) (messages : B → Option (List Message)) where
  -- The rest of `verifySignature`, after the prefix; a signature without it is refused.
  unfoldable pub verify_signature : String → String → B → Bool
  unfolding strip_prefix
  verify_signature secret header body =
      if secret == "" then true else elim (strip_prefix "sha256=" header) [
        | none ↦ false
        | some sent ↦ mac secret body == sent
      ]

  -- `parseAndRoute`; nothing is routed from a body that is not decoded.
  unfoldable pub parse_and_route : B → Channel → Channel
  parse_and_route body ch = elim (messages body) [ none ↦ ch | some ms ↦ route ms ch ]

  -- `HandleEvent`: the status, and the channel after it
  unfoldable pub handle_event : String → Webhook B → Channel → ℕ × Channel
  unfolding verify_signature parse_and_route
  handle_event secret r ch = elim r.body [
    | none ↦ (400, ch)
    | some body ↦
        if not (verify_signature secret r.signature body)
        then (401, ch)
        else (200, parse_and_route body ch)
  ]
