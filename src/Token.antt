-- ===== src/Token.antt =====
-- contracts/flon.token/src/flon.token.cpp: fungible tokens. Each action takes the contract's
-- tables and returns them changed, or the message of the check that failed.
pub mod Balances
pub mod Steps
pub mod Supply
pub mod Openings
pub mod Actions
pub mod Journal
pub mod Transfers
pub mod Others
mod Tests
use Prim.Native.String.{len}
use flon_contracts.Base.{
  ℕ, Bool, not, Option, none, some, List, [], ◌∷◌, ◌++◌, pos, ◌-ℤ◌, ltb_ℤ, leb_ℤ, i64, leb, ◌==◌,
  ◌&&◌, if◌then◌else◌, String, Result, ok, ◌>>=◌, ◌>>◌, check, or_fail, Dict, lookup, insert, erase,
  lookup_or,
}
use flon_contracts.Chain.{Symbol, symbol_eq, Asset, asset, AssetOps, Context}

-- A row of `stat`, under the code of its symbol.
pub record CurrencyStats : Type 0 where
  pub supply : Asset
  pub max_supply : Asset
  pub issuer : ℕ

-- A row of `accounts`, with the account that pays for its storage.
pub record Account : Type 0 where
  pub balance : Asset
  pub payer : ℕ

-- `accounts` has a scope for each owner. `notified` are the accounts that `require_recipient` names.
pub record TokenState : Type 0 where
  pub stats : Dict CurrencyStats
  pub accounts : Dict (Dict Account)
  pub notified : List ℕ

-- The rows in an owner's scope.
abbrev pub scope : ℕ → TokenState → Dict Account
scope owner s = lookup_or [] owner s.accounts

abbrev pub set_account : ℕ → ℕ → Account → TokenState → TokenState
set_account owner code row s = record s {
  accounts = insert owner (insert code row (scope owner s)) s.accounts;
}

abbrev pub set_stats : ℕ → CurrencyStats → TokenState → TokenState
set_stats code st s = record s { stats = insert code st s.stats }

abbrev pub require_auth : Context → ℕ → Result (Unit {0})
require_auth c a = check (c.has_auth a) "missing authority"

abbrev pub is_none {ℓ} : {A : Type ℓ} → Option A → Bool
is_none none = Bool.true
is_none (some _) = Bool.false

module _ ⦃ops : AssetOps⦄ where
  unfoldable pub sub_balance : ℕ → Asset → TokenState → Result TokenState
  sub_balance owner value s = do
    from ← or_fail (lookup value.symbol.code (scope owner s)) "no balance object found"
    check (leb_ℤ value.amount from.balance.amount) "overdrawn balance"
    balance ← ops.sub from.balance value
    ok (set_account owner value.symbol.code (record { balance = balance; payer = owner }) s)

  unfoldable pub add_balance : ℕ → Asset → ℕ → TokenState → Result TokenState
  add_balance owner value ram_payer s = elim (lookup value.symbol.code (scope owner s)) [
    | none ↦
        ok (set_account owner value.symbol.code (record { balance = value; payer = ram_payer }) s)
    | some to ↦ do
      balance ← ops.add to.balance value
      ok (set_account owner value.symbol.code (record to { balance = balance }) s)
  ]

  unfoldable pub create : Context → ℕ → Asset → TokenState → Result TokenState
  create c issuer maximum_supply s = do
    require_auth c c.self
    let sym = maximum_supply.symbol
    check (ops.is_valid maximum_supply) "invalid supply"
    check (ltb_ℤ (pos 0) maximum_supply.amount) "max-supply must be positive"
    check (is_none (lookup sym.code s.stats)) "token with symbol already exists"
    ok (
        set_stats sym.code
          (record { supply = asset (pos 0) sym; max_supply = maximum_supply; issuer = issuer }) s)

  unfoldable pub issue : Context → ℕ → Asset → String → TokenState → Result TokenState
  unfolding add_balance
  issue c to quantity memo s = do
    let sym = quantity.symbol
    check (ops.symbol_is_valid sym) "invalid symbol name"
    check (leb (len memo) 256) "memo has more than 256 bytes"
    st ←
        or_fail (lookup sym.code s.stats)
          "token with symbol does not exist, create token before issue"
    check (to == st.issuer) "tokens can only be issued to issuer account"
    require_auth c st.issuer
    check (ops.is_valid quantity) "invalid quantity"
    check (ltb_ℤ (pos 0) quantity.amount) "must issue positive quantity"
    check (symbol_eq quantity.symbol st.supply.symbol) "symbol precision mismatch"
    check (leb_ℤ quantity.amount (i64 (st.max_supply.amount -ℤ st.supply.amount)))
        "quantity exceeds available supply"
    supply ← ops.add st.supply quantity
    add_balance st.issuer quantity st.issuer (set_stats sym.code (record st { supply = supply }) s)

  unfoldable pub retire : Context → Asset → String → TokenState → Result TokenState
  unfolding sub_balance
  retire c quantity memo s = do
    let sym = quantity.symbol
    check (ops.symbol_is_valid sym) "invalid symbol name"
    check (leb (len memo) 256) "memo has more than 256 bytes"
    st ← or_fail (lookup sym.code s.stats) "token with symbol does not exist"
    require_auth c st.issuer
    check (ops.is_valid quantity) "invalid quantity"
    check (ltb_ℤ (pos 0) quantity.amount) "must retire positive quantity"
    check (symbol_eq quantity.symbol st.supply.symbol) "symbol precision mismatch"
    supply ← ops.sub st.supply quantity
    sub_balance st.issuer quantity (set_stats sym.code (record st { supply = supply }) s)

  unfoldable pub transfer : Context → ℕ → ℕ → Asset → String → TokenState → Result TokenState
  transfer c from to quantity memo s = do
    check (not (from == to)) "cannot transfer to self"
    require_auth c from
    check (c.is_account to) "to account does not exist"
    st ← or_fail (lookup quantity.symbol.code s.stats) "unable to find key"
    let notifying = record s { notified = s.notified ++ from ∷ to ∷ [] }
    check (ops.is_valid quantity) "invalid quantity"
    check (ltb_ℤ (pos 0) quantity.amount) "must transfer positive quantity"
    check (symbol_eq quantity.symbol st.supply.symbol) "symbol precision mismatch"
    check (leb (len memo) 256) "memo has more than 256 bytes"
    let payer = if c.has_auth to then to else from
    debited ← sub_balance from quantity notifying
    add_balance to quantity payer debited

  unfoldable pub open_account : Context → ℕ → Symbol → ℕ → TokenState → Result TokenState
  open_account c owner symbol ram_payer s = do
    require_auth c ram_payer
    check (c.is_account owner) "owner account does not exist"
    st ← or_fail (lookup symbol.code s.stats) "symbol does not exist"
    check (symbol_eq st.supply.symbol symbol) "symbol precision mismatch"
    elim (lookup symbol.code (scope owner s)) [
      | none ↦ ok (
          set_account owner symbol.code
            (record { balance = asset (pos 0) symbol; payer = ram_payer }) s)
      | some _ ↦ ok s
    ]

  unfoldable pub close : Context → ℕ → Symbol → TokenState → Result TokenState
  close c owner symbol s = do
    require_auth c owner
    row ←
        or_fail (lookup symbol.code (scope owner s))
          "Balance row already deleted or never existed. Action won't have any effect."
    check (leb_ℤ row.balance.amount (pos 0) && leb_ℤ (pos 0) row.balance.amount)
        "Cannot close because the balance is not zero."
    ok (record s { accounts = insert owner (erase symbol.code (scope owner s)) s.accounts })

-- The static readers of flon.token.hpp.
unfoldable pub get_supply : ℕ → TokenState → Result Asset
get_supply sym_code s = do
  st ← or_fail (lookup sym_code s.stats) "invalid supply symbol code"
  ok st.supply

unfoldable pub get_max_supply : ℕ → TokenState → Result Asset
get_max_supply sym_code s = do
  st ← or_fail (lookup sym_code s.stats) "invalid supply symbol code"
  ok st.max_supply

unfoldable pub get_issuer : ℕ → TokenState → Result ℕ
get_issuer sym_code s = do
  st ← or_fail (lookup sym_code s.stats) "invalid supply symbol code"
  ok st.issuer

unfoldable pub get_balance : ℕ → ℕ → TokenState → Result Asset
get_balance owner sym_code s = do
  row ← or_fail (lookup sym_code (scope owner s)) "no balance with specified symbol"
  ok row.balance
