-- ===== src/MobileMoney/Examples.antt =====
-- A concrete live provider and its aggregator.
use ma_secure.Base.Int.{pos}
use ma_secure.Base.Text.{is_blank}
use ma_secure.MobileMoney.Providers.{
  PayoutCommand, LiveConfig, HttpRequest, HttpResponse, live_send_payout, finish_live,
}
use ma_secure.MobileMoney.Providers.Laws.{Paid, live_send_payout-Paid}
use ma_secure.Base.{Option, false, refl}
use ma_secure.Base.{String, some, List, [], ◌∷◌}

abbrev command : PayoutCommand
command = record {
  cycle_id = "cycle-1";
  group_id = "g1";
  beneficiary_id = "b1";
  beneficiary_msisdn = "22670000001";
  beneficiary_provider = "wave";
  amount_minor = pos 5000;
  idempotency_key = "k1";
  initiated_at = "null";
}

abbrev live : LiveConfig
live = record {
  callback_base_url = "http://api";
  base_url = "http://agg/";
  api_key = "key";
  hmac_secret = "s";
}

-- an aggregator that accepts what it is sent, and keeps the keys that it saw
abbrev aggregator : HttpRequest String → List String → Option (HttpResponse String) × List String
aggregator r keys = (some (record { status = 202; body = some r.body }), r.idempotency_key ∷ keys)

abbrev encode : String → PayoutCommand → Option String
encode name cmd = some cmd.cycle_id

abbrev digest : String → String → String
digest secret body = secret

live_send_payout-Paid_example :
    Paid aggregator digest encode some live "wave" command []
      (record { external_ref = "cycle-1"; confirm_immediately = false })
      (live_send_payout aggregator digest encode some live "wave" command []).1
unfolding live_send_payout is_blank finish_live
live_send_payout-Paid_example =
    live_send_payout-Paid aggregator digest encode some live "wave" command []
      (record { external_ref = "cycle-1"; confirm_immediately = false }) refl
