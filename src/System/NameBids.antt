-- ===== src/System/NameBids.antt =====
-- contracts/flon.system/src/name_bidding.cpp: the auctions of account names, as the contract is built
-- with ENABLE_NAME_BID.
pub mod Effects
pub mod Bids
pub mod Escrow
mod Tests
use Prim.Native.Nat.{bit_and}
use flon_contracts.Base.{
  ℕ, Bool, not, none, some, [], ◌∷◌, ◌++◌, List, ◌==◌, ℤ, pos, ◌-ℤ◌, ltb_ℤ, i64, div_pos, Result,
  ok, ◌>>=◌, ◌>>◌, check, or_fail, Dict, lookup, insert, erase, lookup_or,
}
use flon_contracts.Chain.{Symbol, symbol_eq, Asset, asset, AssetOps, Context}

pub record NameBid : Type 0 where
  pub newname : ℕ
  pub high_bidder : ℕ
  pub high_bid : ℤ
  pub last_bid_time : ℕ

pub record BidRefund : Type 0 where
  pub bidder : ℕ
  pub amount : Asset

-- The token transfers from a bidder to the account of the bids, and back.
pub data Payment : Type 0 where
  pays_bid refunds_bid : ℕ → Asset → Payment

-- `refunds` has a scope for each name. `core` is the symbol of the global state's stake.
pub record BidState : Type 0 where
  pub core : Symbol
  pub bids : Dict NameBid
  pub refunds : Dict (Dict BidRefund)
  pub sent : List Payment

abbrev pub scope : ℕ → BidState → Dict BidRefund
scope newname s = lookup_or [] newname s.refunds

module _ ⦃ops : AssetOps⦄ where
  -- The refund that a bidder who is outbid is given, over the one that it has.
  abbrev pub refund_row : ℕ → NameBid → BidState → Result BidRefund
  refund_row newname current s =
      elim (lookup current.high_bidder (scope newname s)) as (λ _. Result BidRefund) [
        | some r ↦ do
          high ← ops.make current.high_bid s.core
          amount ← ops.add r.amount high
          ok (record r { amount = amount })
        | none ↦ do
          high ← ops.make current.high_bid s.core
          ok (record { bidder = current.high_bidder; amount = high })
      ]

  -- `suffix` is the library's operation on names.
  unfoldable pub bidname : (ℕ → ℕ) → Context → ℕ → ℕ → Asset → BidState → Result BidState
  bidname suffix c bidder newname bid s = do
    check (c.has_auth bidder) "missing authority"
    check (suffix newname == newname) "you can only bid on top-level suffix"
    check (not (newname == 0)) "the empty name is not a valid account name to bid on"
    check (bit_and newname 15 == 0) "13 character names are not valid account names to bid on"
    check (bit_and newname 496 == 0)
        "accounts with 12 character names and no dots can be created without bidding required"
    check (not (c.is_account newname)) "account already exists"
    check (ops.symbol_is_valid s.core) "system contract must first be initialized"
    check (symbol_eq bid.symbol s.core) "asset must be system token"
    check (ltb_ℤ (pos 0) bid.amount) "insufficient bid"
    let sent = s.sent ++ Payment.pays_bid bidder bid ∷ []
    elim (lookup newname s.bids) as (λ _. Result BidState) [
      | none ↦ ok (record s {
        bids =
            insert newname
              (record {
                newname = newname;
                high_bidder = bidder;
                high_bid = bid.amount;
                last_bid_time = c.now;
              })
              s.bids;
        sent = sent;
      })
      | some current ↦ do
        check (ltb_ℤ (pos 0) current.high_bid) "this auction has already closed"
        check (ltb_ℤ (div_pos current.high_bid 10) (i64 (bid.amount -ℤ current.high_bid)))
            "must increase bid by 10%"
        check (not (current.high_bidder == bidder)) "account is already highest bidder"
        row ← refund_row newname current s
        let rows = insert current.high_bidder row (scope newname s)
        ok (record s {
          bids =
              insert newname
                (record current {
                  high_bidder = bidder;
                  high_bid = bid.amount;
                  last_bid_time = c.now;
                })
                s.bids;
          refunds = insert newname rows s.refunds;
          sent = sent;
        })
    ]

-- The transfer back needs the authority of the bidder as well; the token contract checks it.
unfoldable pub bidrefund : ℕ → ℕ → BidState → Result BidState
bidrefund bidder newname s = do
  r ← or_fail (lookup bidder (scope newname s)) "refund not found"
  let rows = erase bidder (scope newname s)
  ok (record s {
    refunds = insert newname rows s.refunds;
    sent = s.sent ++ Payment.refunds_bid bidder r.amount ∷ [];
  })
