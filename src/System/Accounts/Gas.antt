-- ===== src/System/Accounts/Gas.antt =====
-- About the gas of accounts in contracts/flon.system/src/delegate_bandwidth.cpp.
use flon_contracts.Base.{
  ℕ, ◌+◌, ◌^◌, ◌%◌, ◌<◌, ◌≡◌, ◌≢◌, [], ◌∷◌, ◌++◌, ok, pos_part, lookup-insert, arith,
}
use native.Mathlib.Nat.{mod-eq_of_lt}
use flon_contracts.Chain.{Asset, AssetOps, Context}
use flon_contracts.System.Accounts.{AccountState, Limits, GasPayment, limits_of, buygas}

module _ ⦃ops : AssetOps⦄ where
  -- A purchase of gas that succeeds adds the amount to the gas of the receiver, without a wrap, sends
  -- the payment of that amount, and leaves the gas of every other account and what is unlimited.
  pub buygas_adds :
      (c : Context) (payer receiver : ℕ) (q : Asset) (s t : AccountState)
      → (limits_of receiver s).gas < 2 ^ 64
      → buygas c payer receiver q s ≡ ok t
      → ((limits_of receiver t).gas ≡ (limits_of receiver s).gas + pos_part q.amount)
        × ((limits_of receiver t).gas < 2 ^ 64)
        × (0 < pos_part q.amount)
        × (t.sent ≡ s.sent ++ GasPayment.buys_gas payer q ∷ [])
        × ((limits_of receiver t).is_unlimited ≡ (limits_of receiver s).is_unlimited)
        × ((other : ℕ) → other ≢ receiver → limits_of other t ≡ limits_of other s)
  unfolding buygas
  buygas_adds c payer receiver q s t small h =
      let old = limits_of receiver s in
      let sum = old.gas + pos_part q.amount in
      let fits : sum < 2 ^ 64 = ground arith in
      let row : Limits = record { gas = sum % 2 ^ 64; is_unlimited = old.is_unlimited } in
      let here = lookup-insert receiver receiver row s.limits in
      let whole = mod-eq_of_lt fits in
      (
        ground (arith, here, whole),
        ground (arith, here, whole),
        ground arith,
        ground arith,
        ground (arith, here),
        λ other apart. ground (arith, lookup-insert receiver other row s.limits, apart),
      )
