-- ===== src/System/Market.antt =====
-- The auctions of names across the contracts: bids and refunds (src/name_bidding.cpp), the closing of
-- auctions at blocks (src/producer_pay.cpp) and the creation of names (src/flon.system.cpp) in
-- contracts/flon.system, with the transfers that they send to contracts/flon.token.
pub mod Solvent
pub mod History
mod Tests
use flon_contracts.Base.{
  ℕ, Bool, true, false, ◌&&◌, List, [], ◌∷◌, ◌++◌, ◌≡◌, Option, String, Result, ok, err, ◌>>=◌,
  ◌>>◌,
}
use flon_contracts.Chain.{Asset, AssetOps, Context}
use flon_contracts.Token.{TokenState, transfer}
use flon_contracts.Token.Actions
use flon_contracts.System.NameBids.{Payment, BidState, bidname, bidrefund}
use flon_contracts.System.Schedule.{TopProducer}
use flon_contracts.System.OnBlock.{ProductionState, FeeAction, BlockHeader, names_account, onblock}
use flon_contracts.System.Accounts.{AccountState, newaccount}

-- "flon.fees"_n
abbrev pub fees_account : ℕ
fees_account = 6658906495129747456

-- The tables of the system contract that the auctions use, and those of the token contract. The
-- actions that have been sent have been done: `production.auctions.sent` and `production.fees` are
-- what the current action sends.
pub record Market : Type 0 where
  pub production : ProductionState
  pub accounts : AccountState
  pub tokens : TokenState

module _ ⦃ops : AssetOps⦄ where
  -- The token transfers of `bidname` and `bidrefund`; `d` is their context in the token contract.
  unfoldable pub pay : Context → String → List Payment → TokenState → Result TokenState
  pay d memo [] s = ok s
  pay d memo (Payment.pays_bid bidder q ∷ rest) s = do
    paid ← transfer d bidder names_account q memo s
    pay d memo rest paid
  pay d memo (Payment.refunds_bid bidder q ∷ rest) s = do
    paid ← transfer d names_account bidder q memo s
    pay d memo rest paid

  -- `channel_to_system_fees`; the logging of a fee changes nothing.
  unfoldable pub pay_fees : Context → String → List FeeAction → TokenState → Result TokenState
  pay_fees d memo [] s = ok s
  pay_fees d memo (FeeAction.system_fees from q ∷ rest) s = do
    paid ← transfer d from fees_account q memo s
    pay_fees d memo rest paid
  pay_fees d memo (FeeAction.logsystemfee protocol q ∷ rest) s = pay_fees d memo rest s

  abbrev pub with_auctions : BidState → TokenState → Market → Market
  with_auctions a k m = record m {
    production = record m.production { auctions = record a { sent = [] } };
    tokens = k;
  }

  -- What can be done: a bid, a refund, a block, the creation of an account, and any action of the
  -- token contract.
  pub data Action : Type 0 where
    bids : ℕ → ℕ → Asset → String → Action
    refunds : ℕ → ℕ → String → Action
    blocks : BlockHeader → String → Action
    creates : ℕ → ℕ → Action
    moves : Actions.Action → Action

  module _ (suffix : ℕ → ℕ) (to_time_point : ℕ → ℕ)
      (set_proposed_producers : List TopProducer → Option ℕ) where
    -- `c` is the context of the action in the system contract, `d` that of the token contract.
    unfoldable pub apply : Context → Context → Action → Market → Result Market
    apply c d (bids bidder newname bid memo) m = do
      a ← bidname suffix c bidder newname bid m.production.auctions
      k ← pay d memo a.sent m.tokens
      ok (with_auctions a k m)
    apply c d (refunds bidder newname memo) m = do
      a ← bidrefund bidder newname m.production.auctions
      k ← pay d memo a.sent m.tokens
      ok (with_auctions a k m)
    apply c d (blocks header memo) m = do
      p ← onblock to_time_point set_proposed_producers c header m.production
      k ← pay_fees d memo p.fees m.tokens
      ok (record m { production = record p { fees = [] }; tokens = k })
    apply c d (creates creator n) m = do
      let before = record m.accounts { bids = m.production.auctions.bids }
      after ← newaccount suffix (ops.symbol_is_valid m.production.auctions.core) c creator n before
      ok (record m {
        production = record m.production {
          auctions = record m.production.auctions { bids = after.bids };
        };
        accounts = after;
      })
    apply c d (moves a) m = do k ← Actions.apply d a m.tokens; ok (record m { tokens = k })

    -- An action that fails is rolled back.
    unfoldable pub run : List (Context × Context × Action) → Market → Market
    run [] m = m
    run ((c, d, a) ∷ rest) m = elim (apply c d a m) as (λ _. Market) [
      | ok t ↦ run rest t
      | err e ↦ run rest m
    ]
