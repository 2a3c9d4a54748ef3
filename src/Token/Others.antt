-- ===== src/Token/Others.antt =====
-- About contracts/flon.token/src/flon.token.cpp: what the actions of others do to a balance.
use flon_contracts.Base.{
  ℕ, ◌≡◌, true, false, some, ℤ, pos, ◌+ℤ◌, ◌≤ℤ◌, ok, lookup, int_laws, arith, String, Option-cases,
  inl, inr,
}
use flon_contracts.Chain.{Asset, AssetOps, Context}
use flon_contracts.Token.{TokenState, CurrencyStats, retire, transfer}
use flon_contracts.Token.Balances.{balance}
use flon_contracts.Token.Steps.{transfer_inv, issue_inv, retire_inv}
use flon_contracts.Token.Actions.{Action, apply}
use flon_contracts.Token.Journal.{entry, posted, apply-posted}

grown : (x q : ℤ) → pos 1 ≤ℤ q → x ≤ℤ x +ℤ q
grown x q p = omega (int_laws, p)

module _ ⦃ops : AssetOps⦄ where
  pub transfer_auth :
      (c : Context) (from to : ℕ) (q : Asset) (memo : String) (s t : TokenState)
      → transfer c from to q memo s ≡ ok t
      → (c.has_auth from ≡ true) × (ops.is_valid q ≡ true)
  unfolding transfer
  transfer_auth c from to q memo s t h = elim (Option-cases (lookup q.symbol.code s.stats)) [
    | inl e ↦ ground arith
    | inr (st, e) ↦ (ground arith, ground arith)
  ]

  retire_auth :
      (c : Context) (q : Asset) (memo : String) (s t : TokenState) (st : CurrencyStats)
      → lookup q.symbol.code s.stats ≡ some st
      → retire c q memo s ≡ ok t
      → c.has_auth st.issuer ≡ true
  unfolding retire
  retire_auth c q memo s t st e h = ground arith

  -- An action without the authority of an account takes nothing from its balances.
  pub apply_keeps :
      (c : Context) (a : Action) (s t : TokenState) (p k : ℕ)
      → c.has_auth p ≡ false
      → apply c a s ≡ ok t
      → balance p k s ≤ℤ balance p k t
  unfolding apply
  apply_keeps c a s t p k foreign h = rw (apply-posted c a s t p k h) (kept a h)
    where
      kept :
          (a : Action)
          → apply c a s ≡ ok t
          → balance p k s ≤ℤ posted (entry a s) p k (balance p k s)
      kept (Action.creates issuer limit) h = omega arith
      kept (Action.issues to q memo) h =
          let (_, _, _, positive, _, _, _) = issue_inv c to q memo s t h in
          ground (arith, grown (balance p k s) q.amount positive)
      kept (Action.retires q memo) h =
          let (st, _, found, _, _, _) = retire_inv c q memo s t h in
          let auth = retire_auth c q memo s t st found h in
          rw (found, entry) (ground (arith, auth, foreign))
      kept (Action.transfers from to q memo) h =
          let (_, _, _, positive, _, _) = transfer_inv c from to q memo s t h in
          let auth = transfer_auth c from to q memo s t h in
          ground (arith, grown (balance p k s) q.amount positive, auth.0, foreign)
      kept (Action.opens owner symbol payer) h = omega arith
      kept (Action.closes owner symbol) h = omega arith
