-- ===== src/Audit/Laws.antt =====
-- What the check of the chain finds.
use ma_secure.Base.{
  ℕ, String, none, some, true, false, ◌≡◌, ◌≢◌, ◌↔◌, inl, inr, sym, ◌∙◌, eq_iff, List, [], ◌∷◌,
  ◌++◌, All, Bool-cases, arith,
}
use ma_secure.Audit.{LedgerEventRow, violations_from, verify_ledger_integrity}

module _ (digest : ℕ → String → String → String → String) where
  -- Each entry's hash is the digest of the entry and of the hash before it.
  abbrev pub IsChain : String → List LedgerEventRow → Type 0
  IsChain prev [] = Unit
  IsChain prev (e ∷ es) =
      (e.current_hash ≡ digest e.seq_no e.event_type e.payload_hash prev)
      × IsChain e.current_hash es

  IsChain-iff :
      (prev : String) (es : List LedgerEventRow)
      → (violations_from digest (some prev) es ≡ []) ↔ IsChain prev es
  unfolding violations_from
  IsChain-iff prev [] = ground arith
  IsChain-iff prev (e ∷ es) = ground (
    arith,
    eq_iff e.current_hash (digest e.seq_no e.event_type e.payload_hash prev),
    IsChain-iff e.current_hash es,
  )

  first_iff :
      (es : List LedgerEventRow) → (violations_from digest none es ≡ []) ↔ IsChain "GENESIS" es
  unfolding violations_from
  first_iff [] = ground arith
  first_iff (e ∷ es) = ground (
    arith,
    eq_iff e.current_hash (digest e.seq_no e.event_type e.payload_hash "GENESIS"),
    IsChain-iff e.current_hash es,
  )

  -- Entries pass the check exactly when they are a chain that starts at "GENESIS".
  pub verify_ledger_integrity_iff :
      (es : List LedgerEventRow)
      → ((verify_ledger_integrity digest es).0 ≡ true) ↔ IsChain "GENESIS" es
  unfolding verify_ledger_integrity
  verify_ledger_integrity_iff es = ground (arith, first_iff es)

  -- An entry of a chain is digested with a hash that is no "GENESIS", if no hash before it is.
  IsChain-entry :
      (prev : String) (before : List LedgerEventRow) (e : LedgerEventRow)
      (after : List LedgerEventRow)
      → prev ≢ "GENESIS"
      → All (λ d. d.current_hash ≢ "GENESIS") before
      → IsChain prev (before ++ e ∷ after)
      → (h : String) × (h ≢ "GENESIS")
        × (e.current_hash ≡ digest e.seq_no e.event_type e.payload_hash h)
  IsChain-entry prev [] e after n ns (c, cs) = (prev, n, c)
  IsChain-entry prev (d ∷ ds) e after n (m, ms) (c, cs) =
      IsChain-entry d.current_hash ds e after m ms cs

  -- If no hash of a chain is "GENESIS", and no hash but "GENESIS" gives an entry the digest that
  -- "GENESIS" gives it, the part of a valid chain from that entry on, which is not the chain's
  -- first, fails the check.
  pub verify_ledger_integrity-part :
      (first : LedgerEventRow) (before : List LedgerEventRow) (e : LedgerEventRow)
      (after : List LedgerEventRow)
      → ((h : String)
          → h ≢ "GENESIS"
          → digest e.seq_no e.event_type e.payload_hash h
            ≢ digest e.seq_no e.event_type e.payload_hash "GENESIS")
      → All (λ d. d.current_hash ≢ "GENESIS") (first ∷ before)
      → IsChain "GENESIS" (first ∷ before ++ e ∷ after)
      → (verify_ledger_integrity digest (e ∷ after)).0 ≡ false
  verify_ledger_integrity-part first before e after differs (n, ns) (c, chain) =
      let (h, not_genesis, digested) = IsChain-entry first.current_hash before e after n ns chain in
      elim (Bool-cases (verify_ledger_integrity digest (e ∷ after)).0) [
        | inl passed ↦ absurd (
            differs h not_genesis
              (sym digested ∙ ((verify_ledger_integrity_iff (e ∷ after)).0 passed).0))
        | inr failed ↦ failed
      ]
