-- ===== src/Gateway/Examples.antt =====
-- Two messages for a channel of one place.
use ma_secure.Base.{String, some, true, ◌≡◌, ◌⊎◌, List, [], ◌∷◌, ◌++◌, map, take, arith}
use ma_secure.Gateway.{Message, Channel, Webhook, parse_intent, verify_signature, handle_event}
use ma_secure.Gateway.Laws.{handle_event_lem}

abbrev messages : List Message
messages =
    record { from = "22670000001"; text = " OUI" }
    ∷ record { from = "22670000002"; text = "solde" }
    ∷ []

abbrev channel : Channel
channel = record { capacity = 1; queue = [] }

-- the digest is the secret here, and a body is its messages
abbrev mac : String → List Message → String
mac secret body = secret

abbrev webhook : Webhook (List Message)
webhook = record { signature = "sha256=s3cret"; body = some messages }

handle_event_lem_example :
    ((handle_event mac some "s3cret" webhook channel).1 ≡ channel)
    ⊎ ((body : List Message) × (ms : List Message) × (some messages ≡ some body)
        × (verify_signature mac some "s3cret" "sha256=s3cret" body ≡ true)
        × (some body ≡ some ms)
        × ((handle_event mac some "s3cret" webhook channel).0 ≡ 200)
        × ((handle_event mac some "s3cret" webhook channel).1.queue
            ≡ take 1 ([] ++ map parse_intent ms)))
handle_event_lem_example = handle_event_lem mac some "s3cret" webhook channel (omega arith)
