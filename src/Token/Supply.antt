-- ===== src/Token/Supply.antt =====
-- About all actions of contracts/flon.token/src/flon.token.cpp: the invariant on supplies, caps and
-- balances.
use flon_contracts.Base.{
  ℕ, ◌^◌, ◌≡◌, none, some, ℤ, pos, ◌+ℤ◌, ◌-ℤ◌, ◌∙◌, Bool, true, false, ◌≤ℤ◌, ◌==◌, if◌then◌else◌,
  ok, lookup, lookup-insert, int_laws, arith, String, i64, wrap-Fits, sub-Fits,
}
use flon_contracts.Chain.{Asset, AssetOps, InRange, Context}
use flon_contracts.Token.{TokenState, CurrencyStats, set_stats, issue, retire, transfer}
use flon_contracts.Token.Balances.{
  balance, total, Moved, Nonneg, balance_nonneg, balance-le-total, sub_balance-Moved,
  add_balance-Moved,
}
use flon_contracts.Token.Steps.{notifying, transfer_inv, issue_inv, retire_inv}

-- The recorded supply and the cap of a currency, zero where it does not exist.
abbrev pub supply_of : ℕ → TokenState → ℤ
supply_of code s = elim (lookup code s.stats) [ none ↦ pos 0 | some st ↦ st.supply.amount ]

abbrev pub cap_of : ℕ → TokenState → ℤ
cap_of code s = elim (lookup code s.stats) [ none ↦ pos 0 | some st ↦ st.max_supply.amount ]

pub record Inv (s : TokenState) : Type 0 where
  pub conserved : (c : ℕ) → total c s ≡ supply_of c s
  pub nonneg : Nonneg s
  pub capped : (c : ℕ) → supply_of c s ≤ℤ cap_of c s
  pub cap_range : (c : ℕ) → InRange (cap_of c s)

-- Rows change, and neither the currencies nor the sums do.
pub same_totals-Inv :
    (s t : TokenState)
    → t.stats ≡ s.stats
    → ((k : ℕ) → total k t ≡ total k s)
    → Nonneg t
    → Inv s
    → Inv t
same_totals-Inv s t es same n v = record {
  conserved = λ k. rw (same k, es) (v.conserved k);
  nonneg = n;
  capped = λ k. rw es (v.capped k);
  cap_range = λ k. rw es (v.cap_range k);
}

pub unmoved : (hit : Bool) {a b : ℤ} → b ≡ (if hit then a +ℤ pos 0 else a) → b ≡ a
unmoved true e = rw e (omega int_laws)
unmoved false e = e

pub supply_of-set_stats :
    (k code : ℕ) (st : CurrencyStats) (s : TokenState)
    → supply_of k (set_stats code st s) ≡ (if k == code then st.supply.amount else supply_of k s)
supply_of-set_stats k code st s = ground (arith, lookup-insert code k st s.stats)

pub cap_of-set_stats :
    (k code : ℕ) (st : CurrencyStats) (s : TokenState)
    → cap_of k (set_stats code st s) ≡ (if k == code then st.max_supply.amount else cap_of k s)
cap_of-set_stats k code st s = ground (arith, lookup-insert code k st s.stats)

-- A supply that moves together with one balance.
module _ (owner code : ℕ) (st : CurrencyStats) (d : ℤ) (s t : TokenState) (v : Inv s)
    (m : Moved owner code d (set_stats code st s) t)
    (supply_moves : st.supply.amount ≡ supply_of code s +ℤ d)
    (fits : st.supply.amount ≤ℤ st.max_supply.amount) (in_range : InRange st.max_supply.amount)
    (covered : pos 0 ≤ℤ balance owner code s +ℤ d) where
  supply_of-moved :
      (k : ℕ) → supply_of k t ≡ (if k == code then st.supply.amount else supply_of k s)
  supply_of-moved k = rw m.stats_same (supply_of-set_stats k code st s)

  cap_of-moved : (k : ℕ) → cap_of k t ≡ (if k == code then st.max_supply.amount else cap_of k s)
  cap_of-moved k = rw m.stats_same (cap_of-set_stats k code st s)

  moved-Inv : Inv t
  moved-Inv = record {
    conserved = λ k. ground (arith, m.totals k, supply_of-moved k, v.conserved k, supply_moves);
    nonneg = m.nonneg_kept covered v.nonneg;
    capped = λ k. ground (arith, supply_of-moved k, cap_of-moved k, v.capped k);
    cap_range = λ k. ground (arith, cap_of-moved k, v.cap_range k);
  }

-- What the invariant says of a currency that exists.
pub found_row :
    (code : ℕ) (st : CurrencyStats) (s : TokenState)
    → Inv s
    → lookup code s.stats ≡ some st
    → (supply_of code s ≡ st.supply.amount)
      × (pos 0 ≤ℤ st.supply.amount)
      × (st.supply.amount ≤ℤ st.max_supply.amount)
      × InRange st.max_supply.amount
found_row code st s v e =
    let is_supply : supply_of code s ≡ st.supply.amount = rw (e, supply_of) in
    let is_cap : cap_of code s ≡ st.max_supply.amount = rw (e, cap_of) in
    (
      is_supply,
      rw (← is_supply) (
          rw (← v.conserved code)
            (omega (arith, balance_nonneg 0 code s v.nonneg, balance-le-total 0 code s v.nonneg))),
      rw (← is_supply, ← is_cap) (v.capped code),
      rw (← is_cap) (v.cap_range code),
    )

issue_fits :
    (limit supply q new : ℤ)
    → new ≡ supply +ℤ q
    → q ≤ℤ i64 (limit -ℤ supply)
    → pos 0 ≤ℤ supply
    → supply ≤ℤ limit
    → InRange limit
    → new ≤ℤ limit
issue_fits limit supply q new e h p c r =
    let room : i64 (limit -ℤ supply) ≡ limit -ℤ supply =
      wrap-Fits (2 ^ 63) (limit -ℤ supply) (sub-Fits (2 ^ 63) limit supply (omega arith) p c) in
    let h' : q ≤ℤ limit -ℤ supply = rw room at h in rw e (omega (int_laws, h'))

taken_amount : (a b q : ℤ) → b ≡ a -ℤ q → b ≡ a +ℤ (pos 0 -ℤ q)
taken_amount a b q e = rw e (omega int_laws)

taken_fits :
    (limit supply new q : ℤ) → new ≡ supply -ℤ q → pos 1 ≤ℤ q → supply ≤ℤ limit → new ≤ℤ limit
taken_fits limit supply new q e p c = rw e (omega int_laws)

-- A debit and a credit of one amount cancel.
moved_back :
    (hit : Bool) (q : ℤ) {a b c : ℤ}
    → b ≡ (if hit then a +ℤ (pos 0 -ℤ q) else a)
    → c ≡ (if hit then b +ℤ q else b)
    → c ≡ a
moved_back true q e f = rw (f, e) (omega int_laws)
moved_back false q e f = f ∙ e

module _ ⦃ops : AssetOps⦄ where
  pub transfer-Inv :
      (c : Context) (from to : ℕ) (q : Asset) (memo : String) (s t : TokenState)
      → Inv s
      → transfer c from to q memo s ≡ ok t
      → Inv t
  transfer-Inv c from to q memo s t v h =
      let (u, payer, ne, p, debit, credit) = transfer_inv c from to q memo s t h in
      let (m, covered) = sub_balance-Moved from q (notifying from to s) u debit in
      let n = add_balance-Moved to payer q u t credit in
      let kept = m.nonneg_kept (omega (int_laws, covered)) v.nonneg in
      same_totals-Inv s t (n.stats_same ∙ m.stats_same)
        (λ k. moved_back (k == q.symbol.code) q.amount (m.totals k) (n.totals k))
        (n.nonneg_kept (omega (int_laws, balance_nonneg to q.symbol.code u kept)) kept) v

  pub issue-Inv :
      (c : Context) (to : ℕ) (q : Asset) (memo : String) (s t : TokenState)
      → Inv s
      → issue c to q memo s ≡ ok t
      → Inv t
  issue-Inv c to q memo s t v h =
      let (st, supply, found, p, within, added, credit) = issue_inv c to q memo s t h in
      let st' : CurrencyStats = record st { supply = supply } in
      let sums = ops.add_sound st.supply q supply added in
      let row = found_row q.symbol.code st s v found in
      moved-Inv st.issuer q.symbol.code st' q.amount s t v
        (add_balance-Moved st.issuer st.issuer q (set_stats q.symbol.code st' s) t credit)
        (rw row.0 sums.0)
        (issue_fits st.max_supply.amount st.supply.amount q.amount supply.amount sums.0 within row.1
          row.2 row.3)
        row.3 (omega (int_laws, balance_nonneg st.issuer q.symbol.code s v.nonneg))

  pub retire-Inv :
      (c : Context) (q : Asset) (memo : String) (s t : TokenState)
      → Inv s
      → retire c q memo s ≡ ok t
      → Inv t
  retire-Inv c q memo s t v h =
      let (st, supply, found, p, taken, debit) = retire_inv c q memo s t h in
      let st' : CurrencyStats = record st { supply = supply } in
      let differences = ops.sub_sound st.supply q supply taken in
      let (m, covered) = sub_balance-Moved st.issuer q (set_stats q.symbol.code st' s) t debit in
      let row = found_row q.symbol.code st s v found in
      moved-Inv st.issuer q.symbol.code st' (pos 0 -ℤ q.amount) s t v m
        (rw row.0 (taken_amount _ _ _ differences.0))
        (taken_fits st.max_supply.amount st.supply.amount supply.amount q.amount differences.0 p
          row.2)
        row.3 (omega (int_laws, covered))
