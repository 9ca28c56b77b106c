-- ===== src/Outbox/Dispatchers.antt =====
-- The dispatchers of outbox/main.go. Decoding an event's payload and the kernel's answer to a
-- confirmation are parameters.
pub mod Laws
use ma_secure.Base.{
  ℕ, String, Option, none, some, Bool, true, false, not, ◌==◌, List, [], ◌∷◌, if◌then◌else◌,
}
use ma_secure.Base.Effect.{Result, Exec, ok, err, pure, raise, require_some, guard, ◌>>=◌, ◌>>◌}
use ma_secure.MobileMoney.Registry.{resolve}
use ma_secure.MobileMoney.Providers.{PayoutCommand, DispatchResult}
use ma_secure.Outbox.Worker.{Row, Dispatcher}

-- The interface `Provider` of internal/mobilemoney/providers.go.
pub record Provider (W : Type 0) : Type 0 where
  pub name : String
  pub send_payout : PayoutCommand → Exec String W DispatchResult

module _ {W : Type 0} (providers : List (Provider W)) (decode : String → Option PayoutCommand)
    (confirm : String → String → Exec String W (Unit {0})) where
  abbrev pub provider_of : String → Option (Provider W)
  provider_of raw = resolve (λ p. p.name) providers raw

  unfoldable pub confirm_payout : Bool → String → String → Exec String W (Unit {0})
  confirm_payout true cycle_id ref = confirm cycle_id ref
  confirm_payout false cycle_id ref = pure tt

  -- `Dispatch` after the payout was sent
  unfoldable pub finish_payout : PayoutCommand → DispatchResult → Exec String W String
  unfolding confirm_payout
  finish_payout cmd result = do
    confirm_payout result.confirm_immediately cmd.cycle_id result.external_ref
    pure result.external_ref

  -- `MobileMoneyDispatcher.Dispatch`
  unfoldable pub dispatch_payout : Row → Exec String W String
  dispatch_payout row = do
    cmd ← require_some (decode row.payload) "parse payout payload"
    guard (not (cmd.cycle_id == "")) "missing cycle_id in payout payload"
    provider ←
        require_some (provider_of cmd.beneficiary_provider) "unsupported mobile money provider"
    result ← provider.send_payout cmd
    finish_payout cmd result

  abbrev pub mobile_money : Dispatcher W
  mobile_money = record {
    can_handle = λ target. target == "mobile-money-gw";
    dispatch = dispatch_payout;
  }

  abbrev pub notifications : Dispatcher W
  notifications = record {
    can_handle = λ target. target == "notification-svc";
    dispatch = λ row. pure "notif-ok";
  }

  -- the dispatchers that `main` gives the worker
  abbrev pub dispatchers : List (Dispatcher W)
  dispatchers = mobile_money ∷ notifications ∷ []
