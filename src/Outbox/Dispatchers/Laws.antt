-- ===== src/Outbox/Dispatchers/Laws.antt =====
-- What stands behind an event that is delivered.
use ma_secure.Base.{
  String, Option, some, Bool, true, false, not, ◌≡◌, ◌≢◌, refl, sym, ne_of_not, ◌==◌, List,
}
use mathlib.Core.Path.{subst}
use ma_secure.Base.Effect.{Result, ok, err, ok-injective, continue, pure, ◌>>=◌, ◌>>◌}
use ma_secure.Base.Effect.Reads.{Ensures, Ensures-read, Ensures-guard, Reads-require_some}
use ma_secure.MobileMoney.Providers.{PayoutCommand, DispatchResult}
use ma_secure.Outbox.Worker.{Row}
use ma_secure.Outbox.Dispatchers.{
  Provider, provider_of, confirm_payout, finish_payout, dispatch_payout,
}

module _ {W : Type 0} (providers : List (Provider W)) (decode : String → Option PayoutCommand)
    (confirm : String → String → W → Result String (Unit {0}) × W) where
  pub record Dispatched (row : Row) (w : W) (ref : String) : Type 0 where
    pub cmd : PayoutCommand
    pub decoded : decode row.payload ≡ some cmd
    pub cycle : cmd.cycle_id ≢ ""
    pub provider : Provider W
    pub found : provider_of providers decode confirm cmd.beneficiary_provider ≡ some provider
    pub result : DispatchResult
    pub sent : (provider.send_payout cmd w).0 ≡ ok result
    pub reference : ref ≡ result.external_ref
    pub confirmed :
        result.confirm_immediately ≡ true
        → (confirm cmd.cycle_id result.external_ref (provider.send_payout cmd w).1).0 ≡ ok tt

  confirm_lem :
      (o : Result String (Unit {0})) (ref d : String) (s : W)
      → (continue (λ _. pure ref) o s).0 ≡ ok d
      → (d ≡ ref) × (o ≡ ok tt)
  confirm_lem (ok _) ref d s h = (sym (ok-injective h), refl)
  confirm_lem (err e) ref d s h = absurd (cc h)

  finish_lem :
      (b : Bool) (cycle ref d : String) (s : W)
      → ((confirm_payout providers decode confirm b cycle ref >> pure ref) s).0 ≡ ok d
      → (d ≡ ref) × (b ≡ true → (confirm cycle ref s).0 ≡ ok tt)
  unfolding confirm_payout
  finish_lem true cycle ref d s h =
      let (same, told) = confirm_lem (confirm cycle ref s).0 ref d (confirm cycle ref s).1 h in
      (same, λ _. told)
  finish_lem false cycle ref d s h = (sym (ok-injective h), λ e. absurd (cc e))

  module _ (row : Row) (w : W) (cmd : PayoutCommand) (decoded : decode row.payload ≡ some cmd)
      (cycle : cmd.cycle_id ≢ "") (p : Provider W)
      (found : provider_of providers decode confirm cmd.beneficiary_provider ≡ some p) where
    sent_lem :
        (r : Result String DispatchResult)
        → (p.send_payout cmd w).0 ≡ r
        → (d : String)
        → (continue (finish_payout providers decode confirm cmd) r (p.send_payout cmd w).1).0 ≡ ok d
        → Dispatched row w d
    unfolding finish_payout
    sent_lem (err e) sent d h = absurd (cc h)
    sent_lem (ok result) sent d h =
        let (same, told) =
          finish_lem result.confirm_immediately cmd.cycle_id result.external_ref d
            (p.send_payout cmd w).1 h in
        record {
          cmd = cmd;
          decoded = decoded;
          cycle = cycle;
          provider = p;
          found = found;
          result = result;
          sent = sent;
          reference = same;
          confirmed = told;
        }

  abbrev Delivers : Row → W → Result String String → W → Type 0
  Delivers row w r after = (d : String) → r ≡ ok d → Dispatched row w d

  dispatch-Ensures :
      (row : Row) (w : W)
      → Ensures (λ (v : W). v) (Delivers row w) w (dispatch_payout providers decode confirm row)
  unfolding dispatch_payout
  dispatch-Ensures row w =
      let fails : (e : String) → Delivers row w (err e) w = λ e d h. absurd (cc h) in
      Ensures-read _ _ (Reads-require_some (decode row.payload) "parse payout payload") fails
        λ cmd decoded.
          Ensures-guard (not (cmd.cycle_id == "")) "missing cycle_id in payout payload" _ fails
            λ cycle.
              Ensures-read _ _
                (Reads-require_some (provider_of providers decode confirm cmd.beneficiary_provider)
                  "unsupported mobile money provider")
                fails
                λ p found. record {
                  at = λ s e.
                      subst
                        (λ s.
                          (d : String)
                          → ((p.send_payout cmd >>= finish_payout providers decode confirm cmd) s).0
                            ≡ ok d
                          → Dispatched row w d)
                        (sym e)
                        (sent_lem row w cmd decoded (ne_of_not cmd.cycle_id cycle) p found
                          (p.send_payout cmd w).0 refl);
                }

  -- An event is delivered only if its payload is a command with a cycle, the registry has a provider
  -- for it, that provider sent the payout, and, if the payout is to be confirmed at once, the kernel
  -- accepted the confirmation; its reference is the provider's.
  pub dispatch_payout-Dispatched :
      (row : Row) (w : W) (ref : String)
      → (dispatch_payout providers decode confirm row w).0 ≡ ok ref
      → Dispatched row w ref
  dispatch_payout-Dispatched row w ref h = (dispatch-Ensures row w).at w refl ref h
