-- ===== src/System/Accounts.antt =====
-- contracts/flon.system: new accounts (src/flon.system.cpp) and their gas (`setalimits` there, and
-- src/delegate_bandwidth.cpp), as the contract is built with ENABLE_NAME_BID.
pub mod Names
pub mod Gas
mod Tests
use flon_contracts.Base.{
  ℕ, zero, suc, ◌+◌, ◌-◌, ◌*◌, ◌/◌, ◌%◌, ◌^◌, Bool, true, false, not, ◌&&◌, ◌||◌, List, [], ◌∷◌,
  ◌++◌, none, some, leb, ◌==◌, ℤ, pos, pos_part, ltb_ℤ, if◌then◌else◌, Result, ok, ◌>>=◌, ◌>>◌,
  check, or_fail, Dict, lookup, insert, erase, lookup_or,
}
use flon_contracts.Chain.{Symbol, symbol_eq, Asset, AssetOps, Context}
use flon_contracts.System.NameBids.{NameBid}

-- "flon.gas"_n
abbrev pub gas_account : ℕ
gas_account = 6658906510384431104

pub record AccountCreator : Type 0 where
  pub owner : ℕ
  pub creator : ℕ

-- What the chain keeps as the resource limits of an account.
pub record Limits : Type 0 where
  pub gas : ℕ
  pub is_unlimited : Bool

pub data GasPayment : Type 0 where
  buys_gas : ℕ → Asset → GasPayment

pub record AccountState : Type 0 where
  pub core : Symbol
  pub bids : Dict NameBid
  pub creators : Dict AccountCreator
  pub limits : Dict Limits
  pub sent : List GasPayment

-- `get_resource_limits`
abbrev pub limits_of : ℕ → AccountState → Limits
limits_of account s = lookup_or (record { gas = 0; is_unlimited = true }) account s.limits

-- The loop over the characters of a name: `count` of them are left, of five bits each, and one is
-- a dot if its bits are zero.
unfoldable pub dots_loop : ℕ → ℕ → Bool
dots_loop zero tmp = false
dots_loop (suc count) tmp = tmp % 32 == 0 || dots_loop count (tmp / 32)

unfoldable pub has_dot : ℕ → Bool
has_dot new_account_name = dots_loop 12 (new_account_name / 16)

-- `suffix` is the library's operation on names, `is_init` that the system contract is initialized.
unfoldable pub newaccount : (ℕ → ℕ) → Bool → Context → ℕ → ℕ → AccountState → Result AccountState
newaccount suffix is_init c creator new_account_name s =
    elim is_init as (λ _. Result AccountState) [
      | false ↦ ok s
      | true ↦ do
        bids ←
            elim (not (creator == c.self) && has_dot new_account_name)
              as (λ _. Result (Dict NameBid)) [
                | false ↦ ok s.bids
                | true ↦
                    elim (suffix new_account_name == new_account_name)
                      as (λ _. Result (Dict NameBid)) [
                        | false ↦ do
                          check (creator == suffix new_account_name)
                              "only suffix may create this account"
                          ok s.bids
                        | true ↦ do
                          current ←
                              or_fail (lookup new_account_name s.bids) "no active bid for name"
                          check (current.high_bidder == creator) "only highest bidder can claim"
                          check (ltb_ℤ current.high_bid (pos 0))
                              "auction for name is not closed yet"
                          ok (erase new_account_name s.bids)
                      ]
              ]
        check
            (elim (lookup new_account_name s.creators) as (λ _. Bool) [
              | none ↦ true
              | some _ ↦ false
            ])
            "the primary key is in the table"
        ok (record s {
          bids = bids;
          creators =
              insert new_account_name (record { owner = new_account_name; creator = creator })
                s.creators;
          limits = insert new_account_name (record { gas = 0; is_unlimited = false }) s.limits;
        })
    ]

abbrev pub same_bool : Bool → Bool → Bool
same_bool true b = b
same_bool false b = not b

unfoldable pub setalimits : Context → ℕ → ℕ → Bool → AccountState → Result AccountState
setalimits c account gas is_unlimited s = do
  check (c.has_auth c.self) "missing authority"
  check (c.is_account account) "account not exists"
  let old = limits_of account s
  check (not (gas == old.gas) || not (same_bool is_unlimited old.is_unlimited))
      "data does not have change"
  ok (record s {
    limits = insert account (record { gas = gas; is_unlimited = is_unlimited }) s.limits;
  })

module _ ⦃ops : AssetOps⦄ where
  unfoldable pub buygas : Context → ℕ → ℕ → Asset → AccountState → Result AccountState
  buygas c payer receiver quant s = do
    check (c.has_auth payer) "missing authority"
    check (ops.symbol_is_valid s.core) "system contract must first be initialized"
    check (symbol_eq quant.symbol s.core) "must buy gas with core asset"
    check (ltb_ℤ (pos 0) quant.amount) "must purchase a positive amount"
    check (c.is_account receiver) "receiver account not exists"
    check (not (payer == gas_account) && not (receiver == gas_account))
        "neither payer nor receiver can be system gas account"
    let old = limits_of receiver s
    check (leb (pos_part quant.amount) (2 ^ 64 - 1 - old.gas)) "Overflow when calculating new gas"
    ok (record s {
      limits =
          insert receiver
            (record {
              gas = (old.gas + pos_part quant.amount) % 2 ^ 64;
              is_unlimited = old.is_unlimited;
            })
            s.limits;
      sent = s.sent ++ GasPayment.buys_gas payer quant ∷ [];
    })

  unfoldable pub buygasself : Context → ℕ → Asset → AccountState → Result AccountState
  buygasself c account quant s = buygas c account account quant s
