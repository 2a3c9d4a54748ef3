-- ===== src/Token/Transfers.antt =====
-- About `token::transfer` of contracts/flon.token/src/flon.token.cpp: what it changes, and when it
-- succeeds.
use Prim.Native.String.{len}
use flon_contracts.Base.{
  ℕ, ◌≡◌, ◌≢◌, sym, ◌∙◌, some, true, ℤ, pos, ◌+ℤ◌, ◌-ℤ◌, ◌≤ℤ◌, ◌≤◌, if◌then◌else◌, ok, lookup,
  int_laws, arith, Option-cases, inl, inr, String, ◌⊎◌,
}
use flon_contracts.Chain.{Asset, asset, AssetOps, InRange, Context}
use flon_contracts.Token.{
  TokenState, Account, CurrencyStats, scope, set_account, sub_balance, add_balance, transfer,
}
use flon_contracts.Token.Balances.{
  balance, total, balance_nonneg, balance-le-total, sub_balance-Moved, add_balance-Moved,
}
use flon_contracts.Token.Steps.{notifying, transfer_inv}
use flon_contracts.Token.Supply.{Inv, found_row}

minus_eq : (a q : ℤ) → a +ℤ (pos 0 -ℤ q) ≡ a -ℤ q
minus_eq a q = omega int_laws

-- A balance of a currency that exists is within the library's range.
small : (limit x : ℤ) → InRange limit → pos 0 ≤ℤ x → x ≤ℤ limit → InRange x
small limit x r p h = ground arith

refilled :
    (limit u s b q : ℤ)
    → u ≡ s +ℤ (pos 0 -ℤ q)
    → b ≤ℤ u
    → s ≤ℤ limit
    → pos 0 ≤ℤ b
    → pos 1 ≤ℤ q
    → InRange limit
    → InRange (b +ℤ q)
refilled limit u s b q e h k p p' r =
    let h' : b ≤ℤ s +ℤ (pos 0 -ℤ q) = rw e at h in
    small limit (b +ℤ q) r (omega int_laws) (omega (int_laws, h'))

nonneg_sub : (a q : ℤ) → InRange a → pos 0 ≤ℤ q → q ≤ℤ a → InRange (a -ℤ q)
unfolding ◌-ℤ◌
nonneg_sub a q r p h = ground arith

module _ ⦃ops : AssetOps⦄ where
  sub_balance_total :
      (owner : ℕ) (q : Asset) (row : Account) (s : TokenState)
      → lookup q.symbol.code (scope owner s) ≡ some row
      → row.balance.symbol ≡ q.symbol
      → pos 0 ≤ℤ q.amount
      → q.amount ≤ℤ row.balance.amount
      → InRange row.balance.amount
      → (u : TokenState) × (sub_balance owner q s ≡ ok u)
  unfolding sub_balance
  sub_balance_total owner q row s found same p covered r =
      let taken = asset (row.balance.amount -ℤ q.amount) row.balance.symbol in
      (
        set_account owner q.symbol.code (record { balance = taken; payer = owner }) s,
        ground (
          arith,
          ops.sub_total row.balance q same (nonneg_sub row.balance.amount q.amount r p covered),
        ),
      )

  add_balance_total :
      (owner payer : ℕ) (q : Asset) (s : TokenState)
      → ((row : Account)
          → lookup q.symbol.code (scope owner s) ≡ some row
          → row.balance.symbol ≡ q.symbol)
      → InRange (balance owner q.symbol.code s +ℤ q.amount)
      → (t : TokenState) × (add_balance owner q payer s ≡ ok t)
  unfolding add_balance
  add_balance_total owner payer q s same r =
      elim (Option-cases (lookup q.symbol.code (scope owner s))) [
        | inl e ↦ (
          set_account owner q.symbol.code (record { balance = q; payer = payer }) s,
          ground arith,
        )
        | inr (row, e) ↦ (
          set_account owner q.symbol.code
              (record row { balance = asset (row.balance.amount +ℤ q.amount) row.balance.symbol })
              s,
          ground (arith, ops.add_total row.balance q (same row e) (ground (arith, e, r))),
        )
      ]

  -- A transfer that succeeds takes the amount from the sender, who held it, and gives it to the
  -- receiver, in the currency of the amount only; every other balance and every currency record
  -- stays.
  pub transfer_moves :
      (c : Context) (from to : ℕ) (q : Asset) (memo : String) (s t : TokenState)
      → transfer c from to q memo s ≡ ok t
      → (t.stats ≡ s.stats)
        × (balance from q.symbol.code t ≡ balance from q.symbol.code s -ℤ q.amount)
        × (balance to q.symbol.code t ≡ balance to q.symbol.code s +ℤ q.amount)
        × (q.amount ≤ℤ balance from q.symbol.code s)
        × ((p k : ℕ) → (p ≢ from) × (p ≢ to) ⊎ (k ≢ q.symbol.code) → balance p k t ≡ balance p k s)
  transfer_moves c from to q memo s t h =
      let (u, payer, ne, p, debit, credit) = transfer_inv c from to q memo s t h in
      let (m, covered) = sub_balance-Moved from q (notifying from to s) u debit in
      let n = add_balance-Moved to payer q u t credit in
      let code = q.symbol.code in
      let debited : balance from code u ≡ balance from code s +ℤ (pos 0 -ℤ q.amount) =
        ground (arith, m.balances from code) in
      let sender_kept : balance from code t ≡ balance from code u =
        ground (arith, n.balances from code) in
      let receiver_kept : balance to code u ≡ balance to code s =
        ground (arith, m.balances to code) in
      let credited : balance to code t ≡ balance to code u +ℤ q.amount =
        ground (arith, n.balances to code) in
      (
        n.stats_same ∙ m.stats_same,
        sender_kept ∙ debited ∙ minus_eq (balance from code s) q.amount,
        rw (← receiver_kept) credited,
        covered,
        λ p k other. ground (arith, m.balances p k, n.balances p k, other),
      )

  -- In a state with the invariant, a transfer succeeds that the sender has signed, to another account
  -- that exists, of a valid positive amount in the symbol of a currency that exists, with a memo of at
  -- most 256 bytes, if the sender has a row with at least that amount and the rows of both have that
  -- symbol.
  pub transfer_total :
      (c : Context) (from to : ℕ) (q : Asset) (memo : String) (s : TokenState) (st : CurrencyStats)
      (row : Account)
      → Inv s
      → from ≢ to
      → c.has_auth from ≡ true
      → c.is_account to ≡ true
      → lookup q.symbol.code s.stats ≡ some st
      → ops.is_valid q ≡ true
      → pos 1 ≤ℤ q.amount
      → q.symbol ≡ st.supply.symbol
      → len memo ≤ 256
      → lookup q.symbol.code (scope from s) ≡ some row
      → q.amount ≤ℤ row.balance.amount
      → row.balance.symbol ≡ q.symbol
      → ((other : Account)
          → lookup q.symbol.code (scope to s) ≡ some other
          → other.balance.symbol ≡ q.symbol)
      → (t : TokenState) × (transfer c from to q memo s ≡ ok t)
  unfolding transfer
  transfer_total c from to q memo s st row v ne auth exists found valid p same memo_fits held
        covered held_symbol other_symbol =
      let code = q.symbol.code in
      let begun = notifying from to s in
      let held_amount : balance from code s ≡ row.balance.amount = ground (arith, held) in
      let facts = found_row code st s v found in
      let in_supply : (owner : ℕ) → balance owner code s ≤ℤ st.supply.amount =
        λ owner. rw (← facts.0, ← v.conserved code) (balance-le-total owner code s v.nonneg) in
      let (u, debit) = sub_balance_total from q row begun held held_symbol (omega arith) covered (
        small st.max_supply.amount row.balance.amount facts.3 (omega arith)
          (ground (arith, held_amount, in_supply from, facts.2))) in
      let (m, enough) = sub_balance-Moved from q begun u debit in
      let kept = m.nonneg_kept (omega (int_laws, enough)) v.nonneg in
      let fewer : total code u ≡ total code s +ℤ (pos 0 -ℤ q.amount) =
        ground (arith, m.totals code) in
      let (t, credit) =
        add_balance_total to (if c.has_auth to then to else from) q u
          (λ other e. other_symbol other (sym (m.others_same to code (inl (λ i. ne (sym i)))) ∙ e))
          (refilled st.max_supply.amount (total code u) (total code s) (balance to code u) q.amount
            fewer (balance-le-total to code u kept) (rw (v.conserved code, facts.0) facts.2)
            (balance_nonneg to code u kept) p facts.3) in
      (t, ground (arith, debit, credit, found))
