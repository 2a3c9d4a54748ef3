-- ===== src/Token/Openings.antt =====
-- About `create`, `open` and `close` of contracts/flon.token/src/flon.token.cpp: they keep the
-- invariant.
use flon_contracts.Base.{
  ℕ, ◌≡◌, refl, none, pos, ◌≤ℤ◌, ◌==◌, ok, lookup, insert, erase, int_laws, arith, Option-cases,
  inl, inr,
}
use flon_contracts.Chain.{Symbol, Asset, asset, AssetOps, InRange, Context}
use flon_contracts.Token.{
  TokenState, Account, CurrencyStats, scope, set_account, set_stats, create, open_account, close,
}
use flon_contracts.Token.Balances.{balance, set_account-Moved, erase_row-total, erase_row-Nonneg}
use flon_contracts.Token.Supply.{
  Inv, supply_of, same_totals-Inv, unmoved, supply_of-set_stats, cap_of-set_stats,
}

module _ ⦃ops : AssetOps⦄ where
  pub create-Inv :
      (c : Context) (issuer : ℕ) (limit : Asset) (s t : TokenState)
      → Inv s
      → create c issuer limit s ≡ ok t
      → Inv t
  unfolding create
  create-Inv c issuer limit s t v h = elim (Option-cases (lookup limit.symbol.code s.stats)) [
    | inl e ↦ written (ground arith) e (ground arith) (ops.is_valid_range limit (ground arith))
    | inr (st, e) ↦ ground arith
  ]
    where
      code : ℕ
      code = limit.symbol.code

      st : CurrencyStats
      st = record { supply = asset (pos 0) limit.symbol; max_supply = limit; issuer = issuer }

      written :
          t ≡ set_stats code st s
          → lookup code s.stats ≡ none
          → pos 1 ≤ℤ limit.amount
          → InRange limit.amount
          → Inv t
      written et e p r =
          let missing : supply_of code s ≡ pos 0 = rw (e, supply_of) in
          rw et (record {
            conserved =
                λ k. ground (arith, supply_of-set_stats k code st s, v.conserved k, missing);
            nonneg = v.nonneg;
            capped = λ k.
                ground (
                  arith,
                  supply_of-set_stats k code st s,
                  cap_of-set_stats k code st s,
                  v.capped k,
                );
            cap_range = λ k. ground (arith, cap_of-set_stats k code st s, v.cap_range k);
          })

  pub open_account-Inv :
      (c : Context) (owner : ℕ) (symbol : Symbol) (ram_payer : ℕ) (s t : TokenState)
      → Inv s
      → open_account c owner symbol ram_payer s ≡ ok t
      → Inv t
  unfolding open_account
  open_account-Inv c owner symbol ram_payer s t v h =
      elim (Option-cases (lookup symbol.code s.stats)) [
        | inl e ↦ ground arith
        | inr (st, e) ↦ elim (Option-cases (lookup symbol.code (scope owner s))) [
          | inl missing ↦ opened missing (ground arith)
          | inr (old, present) ↦ let same : t ≡ s = ground arith in rw same v
        ]
      ]
    where
      row : Account
      row = record { balance = asset (pos 0) symbol; payer = ram_payer }

      opened :
          lookup symbol.code (scope owner s) ≡ none
          → t ≡ set_account owner symbol.code row s
          → Inv t
      opened missing et =
          let zero_balance : balance owner symbol.code s ≡ pos 0 = ground (arith, missing) in
          let m =
            set_account-Moved owner symbol.code (pos 0) row s (rw zero_balance (omega int_laws)) in
          rw et (
            same_totals-Inv s (set_account owner symbol.code row s) refl
              (λ k. unmoved (k == symbol.code) (m.totals k))
              (m.nonneg_kept (rw zero_balance (omega int_laws)) v.nonneg) v)

  pub close-Inv :
      (c : Context) (owner : ℕ) (symbol : Symbol) (s t : TokenState)
      → Inv s
      → close c owner symbol s ≡ ok t
      → Inv t
  unfolding close
  close-Inv c owner symbol s t v h = elim (Option-cases (lookup symbol.code (scope owner s))) [
    | inl e ↦ ground arith
    | inr (row, e) ↦ closed (ground (arith, e)) (ground arith)
  ]
    where
      rest : TokenState
      rest = record s { accounts = insert owner (erase symbol.code (scope owner s)) s.accounts }

      closed : balance owner symbol.code s ≡ pos 0 → t ≡ rest → Inv t
      closed zero_balance et = rw et (
          same_totals-Inv s rest refl (λ k. erase_row-total owner symbol.code k s zero_balance)
            (erase_row-Nonneg owner symbol.code s v.nonneg) v)
