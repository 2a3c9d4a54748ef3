-- ===== src/Token/Steps.antt =====
-- About contracts/flon.token/src/flon.token.cpp: what an action that succeeds has checked and done.
use flon_contracts.Base.{
  ℕ, ◌≡◌, ◌≢◌, some, pos, ◌-ℤ◌, [], ◌∷◌, ◌++◌, ◌≤ℤ◌, if◌then◌else◌, ok, lookup, arith, Option-cases,
  Result-cases, inl, inr, String, i64,
}
use flon_contracts.Chain.{Asset, AssetOps, Context}
use flon_contracts.Token.{
  TokenState, CurrencyStats, set_stats, sub_balance, add_balance, issue, retire, transfer,
}

abbrev pub notifying : ℕ → ℕ → TokenState → TokenState
notifying from to s = record s { notified = s.notified ++ from ∷ to ∷ [] }

module _ ⦃ops : AssetOps⦄ where
  -- What a transfer that goes through has checked, and the two balances that it has changed.
  pub transfer_inv :
      (c : Context) (from to : ℕ) (q : Asset) (memo : String) (s t : TokenState)
      → transfer c from to q memo s ≡ ok t
      → (u : TokenState) × (payer : ℕ) × (from ≢ to)
        × (pos 1 ≤ℤ q.amount)
        × (sub_balance from q (notifying from to s) ≡ ok u)
        × (add_balance to q payer u ≡ ok t)
  unfolding transfer
  transfer_inv c from to q memo s t h = elim (Option-cases (lookup q.symbol.code s.stats)) [
    | inl e ↦ ground arith
    | inr (st, e) ↦ elim (Result-cases (sub_balance from q (notifying from to s))) [
      | inl (u, eu) ↦
          (u, if c.has_auth to then to else from, ground arith, ground arith, eu, ground arith)
      | inr (m, em) ↦ ground arith
    ]
  ]

  pub issue_inv :
      (c : Context) (to : ℕ) (q : Asset) (memo : String) (s t : TokenState)
      → issue c to q memo s ≡ ok t
      → (st : CurrencyStats) × (supply : Asset) × (lookup q.symbol.code s.stats ≡ some st)
        × (pos 1 ≤ℤ q.amount)
        × (q.amount ≤ℤ i64 (st.max_supply.amount -ℤ st.supply.amount))
        × (ops.add st.supply q ≡ ok supply)
        × (add_balance st.issuer q st.issuer
              (set_stats q.symbol.code (record st { supply = supply }) s)
            ≡ ok t)
  unfolding issue
  issue_inv c to q memo s t h = elim (Option-cases (lookup q.symbol.code s.stats)) [
    | inl e ↦ ground arith
    | inr (st, e) ↦ elim (Result-cases (ops.add st.supply q)) [
      | inl (b, eb) ↦ (st, b, e, ground arith, ground arith, eb, ground arith)
      | inr (m, em) ↦ ground arith
    ]
  ]

  pub retire_inv :
      (c : Context) (q : Asset) (memo : String) (s t : TokenState)
      → retire c q memo s ≡ ok t
      → (st : CurrencyStats) × (supply : Asset) × (lookup q.symbol.code s.stats ≡ some st)
        × (pos 1 ≤ℤ q.amount)
        × (ops.sub st.supply q ≡ ok supply)
        × (sub_balance st.issuer q (set_stats q.symbol.code (record st { supply = supply }) s)
            ≡ ok t)
  unfolding retire
  retire_inv c q memo s t h = elim (Option-cases (lookup q.symbol.code s.stats)) [
    | inl e ↦ ground arith
    | inr (st, e) ↦ elim (Result-cases (ops.sub st.supply q)) [
      | inl (b, eb) ↦ (st, b, e, ground arith, eb, ground arith)
      | inr (m, em) ↦ ground arith
    ]
  ]
